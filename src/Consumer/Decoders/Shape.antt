-- ===== src/Consumer/Decoders/Shape.antt =====
-- The rows of a decoder and the table that the schema creates for them.
use remnanode_exporter.Geoip.{Info}
use remnanode_exporter.Events.{Row}
use remnanode_exporter.Model.{
  parse_node_connections, parse_sub_request, parse_user_usage, SubRequest, ConnUser, ConnIp,
  NodeConnections, ParseError, UsageRecord, Fields, Codec, UserUsage,
}
use remnanode_exporter.Consumer.{Decoder}
use remnanode_exporter.Schema.Tables.{
  Table, fits, matches, column_names, user_usage, sub_requests, node_connections,
}
use remnanode_exporter.Consumer.Delivery.{row_or_none}
use remnanode_exporter.Prelude.{
  ℕ, ◌≡◌, refl, Bool, true, Option, List, [], ◌∷◌, Text, All, All-append, Result, ok, err,
}
use remnanode_exporter.Consumer.Decoders.{
  sub_request_row, node_connections_decode, sub_request_decode, user_usage_decode,
  node_connections_decoder, sub_request_decoder, user_usage_decoder, user_rows, ip_rows,
  rows_of_result, usage_rows,
}

-- the row fits the table
abbrev pub Fits : Table → Row → Type 0
Fits t row = fits t.columns row ≡ true

-- The decoder inserts into the table, under its columns and in their order, and every row that it
-- makes of the entry fits.
abbrev pub FitsTable : Table → Decoder → Fields → Type 0
FitsTable t dec f =
    (dec.table ≡ t.name)
    × (dec.columns ≡ column_names t)
    × All (Fits t) (row_or_none dec (dec.decode f))

usage_rows-Fits : (m : UserUsage) (rs : List UsageRecord) → All (Fits user_usage) (usage_rows m rs)
unfolding usage_rows fits matches
usage_rows-Fits m [] = tt
usage_rows-Fits m (r ∷ rs) = (refl, usage_rows-Fits m rs)

decoded-All :
    {A : Type 0} (dec : Decoder) (P : Row → Type 0) (f : A → List Row) (r : Result ParseError A)
    → ((a : A) → All P (f a))
    → All P (row_or_none dec (rows_of_result f r))
unfolding rows_of_result row_or_none
decoded-All dec P f (ok a) h = h a
decoded-All dec P f (err x) h = tt

module _ (c : Codec) (geo : Text → Info) where
  ip_rows-Fits :
      (infra : Option (Text → Bool)) (m : NodeConnections) (user : ℕ) (is : List ConnIp)
      → All (Fits node_connections) (ip_rows c geo infra m user is)
  unfolding ip_rows fits matches
  ip_rows-Fits infra m user [] = tt
  ip_rows-Fits infra m user (i ∷ is) = (refl, ip_rows-Fits infra m user is)

  user_rows-Fits :
      (infra : Option (Text → Bool)) (m : NodeConnections) (us : List ConnUser)
      → All (Fits node_connections) (user_rows c geo infra m us)
  unfolding user_rows
  user_rows-Fits infra m [] = tt
  user_rows-Fits infra m (u ∷ us) =
      All-append (Fits node_connections) (ip_rows c geo infra m u.user_id u.ips)
        (user_rows c geo infra m us) (ip_rows-Fits infra m u.user_id u.ips)
        (user_rows-Fits infra m us)

  sub_request_row-Fits :
      (fold : ℕ → ℕ) (m : SubRequest) → Fits sub_requests (sub_request_row c geo fold m)
  unfolding sub_request_row fits matches
  sub_request_row-Fits fold m = refl

  pub request-FitsTable :
      (fold : ℕ → ℕ) (f : Fields) → FitsTable sub_requests (sub_request_decoder c geo fold) f
  unfolding sub_request_decoder sub_request_decode
  request-FitsTable fold f = (
    refl,
    refl,
    decoded-All _ _ _ (parse_sub_request c f) (λ m. (sub_request_row-Fits fold m, tt)),
  )

  pub connection-FitsTable :
      (infra : Option (Text → Bool)) (f : Fields)
      → FitsTable node_connections (node_connections_decoder c geo infra) f
  unfolding node_connections_decoder node_connections_decode
  connection-FitsTable infra f = (
    refl,
    refl,
    decoded-All _ _ _ (parse_node_connections c f) (λ m. user_rows-Fits infra m m.users),
  )

pub usage-FitsTable : (c : Codec) (f : Fields) → FitsTable user_usage (user_usage_decoder c) f
unfolding user_usage_decoder user_usage_decode
usage-FitsTable c f =
    (refl, refl, decoded-All _ _ _ (parse_user_usage c f) (λ m. usage_rows-Fits m m.records))
