-- ===== src/Consumer/Decoders.antt =====
-- internal/consumer/handlers.go: the decoders of the three streams.
pub mod Shape
pub mod Flags
use remnanode_exporter.Panel.{bool_to_u8}
use remnanode_exporter.Prelude.{
  ℕ, String, Bool, false, Option, none, some, List, [], ◌∷◌, ◌++◌, Text, Result, ok, err,
}
use remnanode_exporter.Model.{
  parse_node_connections, ConnUser, ConnIp, parse_sub_request, SubRequest, parse_user_usage,
  stream_node_connections, NodeConnections, stream_sub_requests, stream_user_usage, Fields,
  UsageRecord, Codec, UserUsage, ParseError,
}
use remnanode_exporter.Events.{u8, u32, txt, u64, at, Row}
use remnanode_exporter.Consumer.{Decoder}
use remnanode_exporter.Ua.{classify, kind_text}
use remnanode_exporter.Geoip.{Info}

abbrev pub table_user_usage : String
table_user_usage = "user_usage"

abbrev pub table_sub_requests : String
table_sub_requests = "sub_requests"

abbrev pub table_node_connections : String
table_node_connections = "node_connections"

unfoldable pub rows_of_result {ℓ} :
    {A : Type ℓ} → (A → List Row) → Result ParseError A → Result ParseError (List Row)
rows_of_result f (ok m) = ok (f m)
rows_of_result f (err e) = err e

-- one round of the loop of UserUsageDecoder.Decode
unfoldable pub usage_rows : UserUsage → List UsageRecord → List Row
usage_rows m [] = []
usage_rows m (r ∷ rs) =
    (at m.ts ∷ u64 m.node_id ∷ u64 r.user_id ∷ u64 r.bytes ∷ []) ∷ usage_rows m rs

module _ (c : Codec) where
  unfoldable pub user_usage_decode : Fields → Result ParseError (List Row)
  unfolding rows_of_result usage_rows
  user_usage_decode f = rows_of_result (λ m. usage_rows m m.records) (parse_user_usage c f)

  unfoldable pub user_usage_decoder : Decoder
  unfolding user_usage_decode
  user_usage_decoder = record {
    stream = stream_user_usage;
    table = table_user_usage;
    columns = "ts" ∷ "node_id" ∷ "user_id" ∷ "bytes" ∷ [];
    decode = user_usage_decode;
  }

  -- `geo` is Resolver.Lookup, and `fold` is unicode.ToLower beyond ASCII
  unfoldable pub sub_request_row : (Text → Info) → (ℕ → ℕ) → SubRequest → Row
  unfolding bool_to_u8
  sub_request_row geo fold m =
      let info = geo m.ip in
      let client = classify fold m.user_agent in
      at m.request_at
      ∷ u64 m.user_id
      ∷ txt m.ip
      ∷ txt info.prefix
      ∷ txt info.country
      ∷ txt info.city
      ∷ u32 info.asn
      ∷ txt info.as_org
      ∷ u8 (bool_to_u8 info.is_hosting)
      ∷ txt m.user_agent
      ∷ txt client.family
      ∷ txt (kind_text client.kind)
      ∷ txt m.response_type
      ∷ txt m.rule_name
      ∷ []

  unfoldable pub sub_request_decode :
      (Text → Info) → (ℕ → ℕ) → Fields → Result ParseError (List Row)
  unfolding rows_of_result sub_request_row
  sub_request_decode geo fold f =
      rows_of_result (λ m. sub_request_row geo fold m ∷ []) (parse_sub_request c f)

  unfoldable pub sub_request_decoder : (Text → Info) → (ℕ → ℕ) → Decoder
  unfolding sub_request_decode
  sub_request_decoder geo fold = record {
    stream = stream_sub_requests;
    table = table_sub_requests;
    columns =
        "ts" ∷ "user_id" ∷ "ip" ∷ "ip_prefix" ∷ "country" ∷ "city" ∷ "asn" ∷ "as_org" ∷ "is_hosting"
        ∷ "user_agent" ∷ "ua_family" ∷ "ua_kind" ∷ "srr_response_type" ∷ "srr_rule_name" ∷ [];
    decode = sub_request_decode geo fold;
  }

  -- `infra` is the method Contains of the address set, `none` a nil set
  unfoldable pub is_infra : Option (Text → Bool) → Text → Bool
  is_infra none addr = false
  is_infra (some contains) addr = contains addr

  unfoldable pub ip_rows :
      (Text → Info) → Option (Text → Bool) → NodeConnections → ℕ → List ConnIp → List Row
  unfolding is_infra bool_to_u8
  ip_rows geo infra m user [] = []
  ip_rows geo infra m user (i ∷ is) =
      let info = geo i.ip in
      (at m.ts
        ∷ u64 m.node_id
        ∷ u64 user
        ∷ txt i.ip
        ∷ txt info.prefix
        ∷ at i.last_seen
        ∷ txt info.country
        ∷ txt info.city
        ∷ u32 info.asn
        ∷ txt info.as_org
        ∷ u8 (bool_to_u8 info.is_hosting)
        ∷ u8 (bool_to_u8 (is_infra infra i.ip))
        ∷ [])
      ∷ ip_rows geo infra m user is

  unfoldable pub user_rows :
      (Text → Info) → Option (Text → Bool) → NodeConnections → List ConnUser → List Row
  unfolding ip_rows
  user_rows geo infra m [] = []
  user_rows geo infra m (u ∷ us) = ip_rows geo infra m u.user_id u.ips ++ user_rows geo infra m us

  unfoldable pub node_connections_decode :
      (Text → Info) → Option (Text → Bool) → Fields → Result ParseError (List Row)
  unfolding rows_of_result user_rows
  node_connections_decode geo infra f =
      rows_of_result (λ m. user_rows geo infra m m.users) (parse_node_connections c f)

  unfoldable pub node_connections_decoder : (Text → Info) → Option (Text → Bool) → Decoder
  unfolding node_connections_decode
  node_connections_decoder geo infra = record {
    stream = stream_node_connections;
    table = table_node_connections;
    columns =
        "ts" ∷ "node_id" ∷ "user_id" ∷ "ip" ∷ "ip_prefix" ∷ "last_seen" ∷ "country" ∷ "city" ∷ "asn"
        ∷ "as_org" ∷ "is_hosting" ∷ "is_infra" ∷ [];
    decode = node_connections_decode geo infra;
  }
