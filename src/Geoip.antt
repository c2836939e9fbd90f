-- ===== src/Geoip.antt =====
-- internal/geoip/geoip.go: the enrichment of an address. The two MaxMind databases are parameters:
-- what Lookup decodes for an address, or nothing when it returns an error.
pub mod Blocks
pub mod Handles
pub mod Hosting
pub mod Rotation
use remnanode_exporter.Prelude.{
  ℕ, ◌%◌, ◌^◌, String, Bool, true, false, not, ◌&&◌, ◌||◌, Option, none, some, List, [], ◌∷◌, ◌++◌,
  map, str_eq, ltb, ◌==◌, if◌then◌else◌, Text, codes, text_eq,
}
use remnanode_exporter.Strings.{contains, to_lower, trim_space}
use remnanode_exporter.Netip.{
  Addr, Netip, is_valid, is_6, is_4in6, unmap, is_loopback, is_private, is_link_local_unicast, mask,
  bit_len,
}

pub record Info : Type 0 where
  pub country : Text
  pub city : Text
  pub asn : ℕ
  pub as_org : Text
  pub is_hosting : Bool
  pub prefix : Text

abbrev pub no_info : Info
no_info = record { country = []; city = []; asn = 0; as_org = []; is_hosting = false; prefix = [] }

pub record CityRecord : Type 0 where
  pub country : Text
  pub registered_country : Text
  pub names : List (String × Text)

pub record AsnRecord : Type 0 where
  pub number : ℕ
  pub org : Text

-- maxminddb.Reader, with a number that tells the open files apart
pub record CityDb : Type 0 where
  pub handle : ℕ
  pub lookup : Addr → Option CityRecord

pub record AsnDb : Type 0 where
  pub handle : ℕ
  pub lookup : Addr → Option AsnRecord

pub record Resolver : Type 0 where
  pub keywords : List Text
  pub city : Option CityDb
  pub asn : Option AsnDb

abbrev pub default_hosting_keywords : List String
default_hosting_keywords =
    "hosting" ∷ "host" ∷ "datacenter" ∷ "data center" ∷ "dedicated" ∷ "server" ∷ "cloud" ∷ "vps"
    ∷ "colo" ∷ "ovh" ∷ "hetzner" ∷ "digitalocean" ∷ "linode" ∷ "vultr" ∷ "contabo" ∷ "scaleway"
    ∷ "leaseweb" ∷ "m247" ∷ "choopa" ∷ "amazon" ∷ "aws" ∷ "google llc" ∷ "microsoft" ∷ "azure"
    ∷ "oracle" ∷ "alibaba" ∷ "tencent" ∷ "packet" ∷ "equinix" ∷ "cogent" ∷ "netcup" ∷ "aeza"
    ∷ "vdsina" ∷ "timeweb" ∷ "selectel" ∷ "firstbyte" ∷ "ihor" ∷ "serverius" ∷ "worldstream"
    ∷ "clouvider" ∷ []

unfoldable pub lower_all : (ℕ → ℕ) → List Text → List Text
lower_all fold [] = []
lower_all fold (v ∷ vs) = to_lower fold v ∷ lower_all fold vs

unfoldable pub keywords_of : List Text → List Text
keywords_of [] = map codes default_hosting_keywords
keywords_of (k ∷ ks) = k ∷ ks

-- openDB's results for the two files, and the handles that are closed
unfoldable pub replace_slot {ℓ} : {A : Type ℓ} → Option A → Option A → Option A
replace_slot none old = old
replace_slot (some db) old = some db

unfoldable pub closed_slot {ℓ} : {A : Type ℓ} → (A → ℕ) → Option A → Option A → List ℕ
closed_slot handle none old = []
closed_slot handle (some db) none = []
closed_slot handle (some db) (some old) = handle old ∷ []

-- reload
unfoldable pub reload : Option CityDb → Option AsnDb → Resolver → Resolver × List ℕ
unfolding replace_slot closed_slot
reload city asn r = (
  record r { city = replace_slot city r.city; asn = replace_slot asn r.asn },
  closed_slot (λ (d : CityDb). d.handle) city r.city
      ++ closed_slot (λ (d : AsnDb). d.handle) asn r.asn,
)

-- New, with what openDB returns for the two files
unfoldable pub new : (ℕ → ℕ) → List Text → Option CityDb → Option AsnDb → Resolver
unfolding lower_all keywords_of
new fold keywords city asn =
    (reload city asn
      (record { keywords = lower_all fold (keywords_of keywords); city = none; asn = none })).0

unfoldable pub open_handle {ℓ} : {A : Type ℓ} → (A → ℕ) → Option A → List ℕ
open_handle handle none = []
open_handle handle (some db) = handle db ∷ []

-- Close
unfoldable pub close : Resolver → Resolver × List ℕ
unfolding open_handle
close r = (
  record r { city = none; asn = none },
  open_handle (λ (d : CityDb). d.handle) r.city ++ open_handle (λ (d : AsnDb). d.handle) r.asn,
)

unfoldable pub any_contained : Text → List Text → Bool
any_contained low [] = false
any_contained low (kw ∷ kws) = if contains low kw then true else any_contained low kws

-- isHosting
unfoldable pub is_hosting : (ℕ → ℕ) → Resolver → Text → Bool
is_hosting fold r org =
    if text_eq org [] then false else any_contained (to_lower fold org) r.keywords

unfoldable pub name_of : String → List (String × Text) → Option Text
name_of key [] = none
name_of key ((k, v) ∷ names) = if str_eq k key then some v else name_of key names

unfoldable pub or_same : Option Text → Text → Text
or_same none old = old
or_same (some t) old = t

-- the two halves of Lookup, behind the tests
unfoldable pub add_city : Option CityRecord → Info → Info
unfolding name_of or_same
add_city none info = info
add_city (some rec) info = record info {
  country = if text_eq rec.country [] then rec.registered_country else rec.country;
  city = or_same (name_of "en" rec.names) info.city;
}

unfoldable pub add_asn : (ℕ → ℕ) → Resolver → Option AsnRecord → Info → Info
add_asn fold r none info = info
add_asn fold r (some rec) info = record info {
  asn = rec.number % 2 ^ 32;
  as_org = rec.org;
  is_hosting = is_hosting fold r rec.org;
}

unfoldable pub ask {ℓ κ} :
    {A : Type ℓ} {B : Type κ} → (A → Addr → Option B) → Option A → Addr → Option B
ask lookup none addr = none
ask lookup (some db) addr = lookup db addr

module _ (ip : Netip) where
  -- Prefix
  unfoldable pub prefix : Addr → Text
  prefix addr =
      let bits : ℕ = if is_6 addr && not (is_4in6 addr) then 48 else 24 in
      let plain = if is_4in6 addr then unmap addr else addr in
      if not (is_valid addr)
      then []
      else if ltb (bit_len plain) bits
      then ip.show_addr plain
      else ip.show_addr (mask plain bits) ++ (if bits == 48 then codes "/48" else codes "/24")

  unfoldable pub is_local : Addr → Bool
  is_local addr =
      not (is_valid addr) || is_loopback addr || is_private addr || is_link_local_unicast addr

  -- Lookup
  unfoldable pub lookup_addr : (ℕ → ℕ) → Resolver → Addr → Info
  unfolding ask add_city add_asn
  lookup_addr fold r addr =
      let info = record no_info { prefix = prefix addr } in
      if is_local addr
      then info
      else add_asn fold r (ask (λ (d : AsnDb). d.lookup) r.asn addr)
          (add_city (ask (λ (d : CityDb). d.lookup) r.city addr) info)

  unfoldable pub lookup_parsed : (ℕ → ℕ) → Resolver → Option Addr → Info
  lookup_parsed fold r none = no_info
  lookup_parsed fold r (some addr) = lookup_addr fold r addr

  unfoldable pub lookup : (ℕ → ℕ) → Resolver → Text → Info
  lookup fold r raw = lookup_parsed fold r (ip.parse_addr (trim_space raw))
