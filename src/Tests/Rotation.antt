-- ===== src/Tests/Rotation.antt =====
-- A rotation of the GeoIP files under a lookup.
use remnanode_exporter.Prelude.{
  ◌+◌, ◌≤◌, ◌≡◌, refl, ◌≢◌, true, false, none, some, [], ◌∷◌, ◌==◌, if◌then◌else◌, codes,
}
use remnanode_exporter.Geoip.{reload, closed_slot, replace_slot, CityDb, Resolver}
use remnanode_exporter.Geoip.Handles.{count}
use remnanode_exporter.Geoip.Rotation.{
  swap, Found, reloads, closes, later, open_db, city_db, asn_db, Machine, Steps, done, first,
  outside, copied,
}
use remnanode_exporter.Geoip.Rotation.Closing.{held, Steps-close_once, Steps-close_in_lookup}

-- what every reload finds: a City file
abbrev found : Found
found = record {
  city_stats = true;
  city_file = some (λ a. none);
  asn_stats = false;
  asn_file = none;
}

abbrev twice : Machine
twice =
    swap (codes "c") (codes "a") found
      (swap (codes "c") (codes "a") found (first (codes "c") (codes "a") []))

-- behind the second reload, with the reader of the first one closed
abbrev rotated : Machine
rotated = record twice { to_close = []; closed = 0 ∷ twice.closed }

rotates : Steps (codes "c") (codes "a") (first (codes "c") (codes "a") []) rotated
unfolding swap first reload closed_slot replace_slot open_db city_db asn_db
rotates = later (later (later done (reloads found refl)) (reloads found refl)) (closes 0 [] refl)

Steps-close_once_example :
    count 0 (held rotated) + count 0 rotated.to_close + count 0 rotated.closed ≤ 1
Steps-close_once_example = Steps-close_once (codes "c") (codes "a") [] rotated 0 rotates

abbrev city : CityDb
city = record { handle = 4; lookup = λ a. none }

abbrev resolver : Resolver
resolver = record { keywords = []; city = some city; asn = none }

-- lookup 0 has copied the readers
abbrev machine : Machine
machine = record {
  resolver = resolver;
  given = 6;
  to_close = [];
  closed = [];
  lookups = λ i. if i == 0 then copied resolver else outside;
}

Steps-close_in_lookup_example :
    (n : Machine) × Steps (codes "c") (codes "a") machine n
    × (n.lookups 0 ≡ copied resolver)
    × (count 4 n.closed ≢ 0)
Steps-close_in_lookup_example =
    Steps-close_in_lookup (codes "c") (codes "a") machine 0 resolver city (λ a. none) refl refl refl
      refl (λ e. cc)
