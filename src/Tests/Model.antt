-- ===== src/Tests/Model.antt =====
-- Runs of internal/model/model.go at concrete entries.
use remnanode_exporter.Strings.{split, on_head, cut}
use remnanode_exporter.Model.Connections.{parse_node_connections_iff, IsNodeConnections}
use remnanode_exporter.Model.Messages.{
  parse_user_usage_iff, IsUserUsage, parse_sub_request_iff, IsSubRequest,
}
use remnanode_exporter.Strconv.{scan, parse_uint}
use remnanode_exporter.Model.Records.{
  parse_records_iff, Unpacks, parse_records-pack, pack, SpellsAll,
}
use remnanode_exporter.Prelude.{
  ◌≡◌, refl, ◌≢◌, some, List, [], ◌∷◌, arith, Text, codes, length, ok, pos,
}
use remnanode_exporter.Model.{
  first_str, or_empty, field_str, value_str, get_field, or_missing, time, or_fail, uint, not_empty,
  conn_ips, required, parse_pair, conn_users, check_version, parse_pairs, str,
  parse_node_connections, NodeConnections, parse_sub_request, SubRequest, parse_user_usage,
  parse_records, Fields, UsageRecord, Codec, UserUsage,
}

abbrev pub codec : Codec
codec = record {
  time_parse = λ t. some (pos (length t));
  users_decode = λ t. some (
      record {
        user_id = codes "7";
        ips = record { ip = codes "1.2.3.4"; last_seen = codes "now" } ∷ [];
      }
      ∷ []);
}

abbrev two_records : List UsageRecord
two_records = record { user_id = 12; bytes = 3400 } ∷ record { user_id = 5; bytes = 0 } ∷ []

abbrev usage_fields : Fields
usage_fields =
    ("v", str (codes "1"))
    ∷ ("nodeId", str (codes "42"))
    ∷ ("ts", str (codes "2026"))
    ∷ ("records", str (codes "12:3400;;5:0"))
    ∷ []

abbrev usage : UserUsage
usage = record { ts = pos 4; node_id = 42; records = two_records }

parse_records_iff_example :
    Unpacks (split b';' (codes "12:3400;;5:0")) two_records × (two_records ≢ [])
unfolding parse_records parse_pairs parse_pair not_empty or_fail or_missing split on_head cut
    parse_uint scan
parse_records_iff_example = (parse_records_iff (codes "12:3400;;5:0") two_records).0 refl

abbrev two_pairs : List (Text × Text)
two_pairs = (codes "12", codes "3400") ∷ (codes "5", codes "0") ∷ []

two_pairs-SpellsAll : SpellsAll two_pairs two_records
two_pairs-SpellsAll = (
  (
    record { nonempty = λ h. cc; digits = ground arith; exact = refl; fits = omega arith },
    record { nonempty = λ h. cc; digits = ground arith; exact = refl; fits = omega arith },
  ),
  (
    (
      record { nonempty = λ h. cc; digits = ground arith; exact = refl; fits = omega arith },
      record { nonempty = λ h. cc; digits = ground arith; exact = refl; fits = omega arith },
    ),
    tt,
  ),
)

parse_records-pack_example : parse_records (pack two_pairs) ≡ ok two_records
parse_records-pack_example = parse_records-pack two_pairs two_records (λ h. cc) two_pairs-SpellsAll

parse_user_usage_iff_example : IsUserUsage codec usage_fields usage
unfolding parse_user_usage check_version required uint time get_field value_str field_str
    parse_records parse_pairs parse_pair not_empty or_fail or_missing split on_head cut parse_uint
    scan
parse_user_usage_iff_example = (parse_user_usage_iff codec usage_fields usage).0 refl

abbrev request_fields : Fields
request_fields =
    ("v", str (codes "1"))
    ∷ ("userId", str (codes "9"))
    ∷ ("requestAt", str (codes "2026"))
    ∷ ("requestIp", str (codes "1.1.1.1"))
    ∷ ("ssrResponseType", str (codes "XRAY"))
    ∷ []

abbrev request : SubRequest
request = record {
  request_at = pos 4;
  user_id = 9;
  ip = codes "1.1.1.1";
  user_agent = [];
  response_type = codes "XRAY";
  rule_name = [];
}

parse_sub_request_iff_example : IsSubRequest codec request_fields request
unfolding parse_sub_request check_version required uint time get_field value_str field_str or_empty
    first_str or_fail or_missing parse_uint scan
parse_sub_request_iff_example = (parse_sub_request_iff codec request_fields request).0 refl

abbrev pub connection_fields : Fields
connection_fields =
    ("v", str (codes "1"))
    ∷ ("nodeId", str (codes "3"))
    ∷ ("ts", str (codes "2026"))
    ∷ ("users", str (codes "[]"))
    ∷ []

abbrev pub connections : NodeConnections
connections = record {
  ts = pos 4;
  node_id = 3;
  users =
      record { user_id = 7; ips = record { ip = codes "1.2.3.4"; last_seen = pos 3 } ∷ [] } ∷ [];
}

parse_node_connections_iff_example : IsNodeConnections codec connection_fields connections
unfolding parse_node_connections conn_users conn_ips check_version required uint time get_field
    value_str field_str or_fail or_missing parse_uint scan
parse_node_connections_iff_example =
    (parse_node_connections_iff codec connection_fields connections).0 refl
