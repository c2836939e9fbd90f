-- ===== src/Geoip/Rotation.antt =====
-- internal/geoip/geoip.go: Watch beside any number of lookups, as steps in any order.
pub mod Closing
use remnanode_exporter.Prelude.{
  ℕ, ◌+◌, ◌≡◌, Bool, not, Option, none, some, List, [], ◌∷◌, ◌==◌, if◌then◌else◌, Text, text_eq,
}
use remnanode_exporter.Netip.{Addr}
use remnanode_exporter.Geoip.{CityDb, AsnDb, CityRecord, AsnRecord, Resolver, reload}

-- openDB: nothing for an empty path, for a file that os.Stat does not find, and for one that
-- maxminddb.Open refuses; the handle is the next one
unfoldable pub open_db {ℓ} : {A : Type ℓ} → Text → Bool → Option A → Option A
open_db path stats file = if text_eq path [] then none else if not stats then none else file

-- where a lookup stands: outside, in front of the two calls of Lookup on the readers that it copied,
-- and between them
pub data LookupPc : Type 0 where
  outside : LookupPc
  copied : Resolver → LookupPc
  halfway : Resolver → LookupPc

-- what a reload finds in the two paths
pub record Found : Type 0 where
  pub city_stats : Bool
  pub city_file : Option (Addr → Option CityRecord)
  pub asn_stats : Bool
  pub asn_file : Option (Addr → Option AsnRecord)

-- The resolver, how many handles were given out, which readers the reload in progress has yet to
-- close, which are closed, and the lookups.
pub record Machine : Type 0 where
  pub resolver : Resolver
  pub given : ℕ
  pub to_close : List ℕ
  pub closed : List ℕ
  pub lookups : ℕ → LookupPc

unfoldable pub set_lookup : ℕ → LookupPc → (ℕ → LookupPc) → ℕ → LookupPc
set_lookup i pc lookups j = if j == i then pc else lookups j

unfoldable pub city_db : ℕ → Option (Addr → Option CityRecord) → Option CityDb
city_db handle none = none
city_db handle (some lookup) = some (record { handle = handle; lookup = lookup })

unfoldable pub asn_db : ℕ → Option (Addr → Option AsnRecord) → Option AsnDb
asn_db handle none = none
asn_db handle (some lookup) = some (record { handle = handle; lookup = lookup })

module _ (city_path asn_path : Text) where
  -- a reload up to the Unlock
  unfoldable pub swap : Found → Machine → Machine
  unfolding open_db city_db asn_db
  swap f m =
      let city = city_db m.given (open_db city_path f.city_stats f.city_file) in
      let asn = asn_db (m.given + 1) (open_db asn_path f.asn_stats f.asn_file) in
      let (resolver, old) = reload city asn m.resolver in
      record m { resolver = resolver; given = m.given + 2; to_close = old }

  unfoldable pub move : ℕ → LookupPc → Machine → Machine
  unfolding set_lookup
  move i pc m = record m { lookups = set_lookup i pc m.lookups }

  pub data Step (m : Machine) : Machine → Type 0 where
    -- one reload at a time: Watch is one goroutine
    reloads : (f : Found) → m.to_close ≡ [] → Step m (swap f m)
    closes :
        (h : ℕ) (hs : List ℕ)
        → m.to_close ≡ h ∷ hs
        → Step m (record m { to_close = hs; closed = h ∷ m.closed })
    -- Lookup: the copy under the read lock, and the two calls on what was copied
    copies : (i : ℕ) → m.lookups i ≡ outside → Step m (move i (copied m.resolver) m)
    asks_city : (i : ℕ) (r : Resolver) → m.lookups i ≡ copied r → Step m (move i (halfway r) m)
    asks_asn : (i : ℕ) (r : Resolver) → m.lookups i ≡ halfway r → Step m (move i outside m)

  -- several steps
  pub data Steps (m : Machine) : Machine → Type 0 where
    done : Steps m m
    later : {n o : Machine} → Steps m n → Step n o → Steps m o

  -- New, which reloads before anything else runs
  unfoldable pub first : List Text → Machine
  first keywords = record {
    resolver = record { keywords = keywords; city = none; asn = none };
    given = 0;
    to_close = [];
    closed = [];
    lookups = λ i. outside;
  }
