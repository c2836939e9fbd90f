-- ===== src/Tests/Enrichment.antt =====
-- Runs of internal/geoip, internal/ua and the address set at concrete addresses.
use remnanode_exporter.Ua.{rules, classify}
use remnanode_exporter.Ua.FirstMatch.{classify-MatchSpec, folded, MatchSpec}
use remnanode_exporter.Geoip.Blocks.{prefix_v4_iff}
use remnanode_exporter.Strings.{
  to_lower, lower_rune, trim_space, trim_left, trim_right, is_space, contains, has_prefix,
}
use remnanode_exporter.Geoip.Handles.{new-closed-opened, opened, closed, count, Files}
use remnanode_exporter.Geoip.Hosting.{lookup-IsHosting_iff, IsHosting}
use remnanode_exporter.Geoip.{
  any_contained, is_hosting, add_asn, ask, replace_slot, reload, is_local, lookup_addr,
  lookup_parsed, lookup, keywords_of, lower_all,
}
use remnanode_exporter.Prelude.{ℕ, ◌≡◌, refl, Option, none, some, List, [], ◌∷◌, arith, Text, codes}
use remnanode_exporter.Netip.{
  plain_is_loopback, unmap, plain_is_private, plain_is_link_local, is_link_local_unicast,
  is_private, is_loopback, is_valid, ReadsBack, Netip, Addr, no_addr, v4, v6,
}
use remnanode_exporter.Geoip.{new, AsnDb, prefix, CityDb}

-- a text form of addresses that reads back
parse_code : Text → Option Addr
parse_code [] = none
parse_code (n ∷ []) = some (v4 n)
parse_code (n ∷ m ∷ z) = some (v6 n z)

show_code : Addr → Text
show_code no_addr = []
show_code (v4 n) = n ∷ []
show_code (v6 n z) = n ∷ 0 ∷ z

abbrev netip : Netip
netip = record { parse_addr = parse_code; show_addr = show_code }

netip-ReadsBack : ReadsBack netip
unfolding parse_code show_code
netip-ReadsBack no_addr h = absurd (h refl)
netip-ReadsBack (v4 n) h = refl
netip-ReadsBack (v6 n z) h = refl

prefix_v4_iff_example : prefix netip (v4 0x01020304) ≡ prefix netip (v4 0x010203ff)
prefix_v4_iff_example = (prefix_v4_iff netip netip-ReadsBack 0x01020304 0x010203ff).1 (omega arith)

abbrev city_db : ℕ → CityDb
city_db n = record { handle = n; lookup = λ a. none }

abbrev asn_db : ℕ → AsnDb
asn_db n = record { handle = n; lookup = λ a. none }

abbrev reloads : List Files
reloads = (some (city_db 3), none) ∷ (none, some (asn_db 4)) ∷ []

new-closed-opened_example :
    count 1 (closed reloads (new (λ c. c) [] (some (city_db 1)) (some (asn_db 2))))
    ≡ count 1 (opened ((some (city_db 1), some (asn_db 2)) ∷ reloads))
new-closed-opened_example =
    new-closed-opened (λ c. c) [] (some (city_db 1), some (asn_db 2)) reloads 1

abbrev agent : Text
agent = codes "Happ/1.2 (okhttp bot)"

classify-MatchSpec_example : MatchSpec (folded (λ c. c) agent) rules (classify (λ c. c) agent)
unfolding to_lower lower_rune trim_space trim_left trim_right is_space
classify-MatchSpec_example = classify-MatchSpec (λ c. c) agent (λ h. cc)

-- a database that has one provider for every address
abbrev provider_db : AsnDb
provider_db = record {
  handle = 5;
  lookup = λ a. some (record { number = 7; org = codes "ACME Cloud" });
}

lookup-IsHosting_iff_example : IsHosting (λ c. c) (codes "ACME Cloud") (codes "CLOUD" ∷ [])
unfolding lookup lookup_parsed lookup_addr is_local is_valid is_loopback is_private
    is_link_local_unicast parse_code trim_space trim_left trim_right is_space new reload
    replace_slot ask add_asn is_hosting any_contained contains has_prefix to_lower lower_rune
    lower_all keywords_of plain_is_loopback unmap plain_is_private plain_is_link_local
lookup-IsHosting_iff_example =
    (lookup-IsHosting_iff netip (λ c. c) (codes "CLOUD" ∷ []) none provider_db (0x08080808 ∷ [])
        (v4 0x08080808) (record { number = 7; org = codes "ACME Cloud" }) refl refl refl).0
      refl
