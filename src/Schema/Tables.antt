-- ===== src/Schema/Tables.antt =====
-- internal/schema/sql/01_tables.sql: the tables that the exporter writes, as lists of columns. Engines,
-- keys, codecs and lifetimes are left out.
use remnanode_exporter.Events.{Row, Cell, at, u8, u32, u64, i64, txt, txts}
use remnanode_exporter.Prelude.{String, Bool, true, false, ◌&&◌, List, [], ◌∷◌, map}

-- the types of the columns; LowCardinality changes the storage alone
pub data ColumnType : Type 0 where
  date_time uint8 uint32 uint64 int64 string strings : ColumnType

pub record Table : Type 0 where
  pub name : String
  pub columns : List (String × ColumnType)

abbrev pub user_usage : Table
user_usage = record {
  name = "user_usage";
  columns = ("ts", date_time) ∷ ("node_id", uint64) ∷ ("user_id", uint64) ∷ ("bytes", uint64) ∷ [];
}

abbrev pub sub_requests : Table
sub_requests = record {
  name = "sub_requests";
  columns =
      ("ts", date_time)
      ∷ ("user_id", uint64)
      ∷ ("ip", string)
      ∷ ("ip_prefix", string)
      ∷ ("country", string)
      ∷ ("city", string)
      ∷ ("asn", uint32)
      ∷ ("as_org", string)
      ∷ ("is_hosting", uint8)
      ∷ ("user_agent", string)
      ∷ ("ua_family", string)
      ∷ ("ua_kind", string)
      ∷ ("srr_response_type", string)
      ∷ ("srr_rule_name", string)
      ∷ [];
}

abbrev pub node_connections : Table
node_connections = record {
  name = "node_connections";
  columns =
      ("ts", date_time)
      ∷ ("node_id", uint64)
      ∷ ("user_id", uint64)
      ∷ ("ip", string)
      ∷ ("ip_prefix", string)
      ∷ ("last_seen", date_time)
      ∷ ("country", string)
      ∷ ("city", string)
      ∷ ("asn", uint32)
      ∷ ("as_org", string)
      ∷ ("is_hosting", uint8)
      ∷ ("is_infra", uint8)
      ∷ [];
}

abbrev pub torrent_reports : Table
torrent_reports = record {
  name = "torrent_reports";
  columns =
      ("ts", date_time)
      ∷ ("report_id", uint64)
      ∷ ("node_id", uint64)
      ∷ ("user_id", uint64)
      ∷ ("ip", string)
      ∷ ("ip_prefix", string)
      ∷ ("country", string)
      ∷ ("city", string)
      ∷ ("asn", uint32)
      ∷ ("as_org", string)
      ∷ ("is_hosting", uint8)
      ∷ ("blocked", uint8)
      ∷ ("block_seconds", uint32)
      ∷ ("destination", string)
      ∷ ("network", string)
      ∷ ("protocol", string)
      ∷ ("inbound_tag", string)
      ∷ ("outbound_tag", string)
      ∷ [];
}

abbrev pub dim_users : Table
dim_users = record {
  name = "dim_users";
  columns =
      ("user_id", uint64)
      ∷ ("username", string)
      ∷ ("status", string)
      ∷ ("tag", string)
      ∷ ("traffic_limit_bytes", uint64)
      ∷ ("hwid_device_limit", int64)
      ∷ ("expire_at", date_time)
      ∷ ("traffic_limit_strategy", string)
      ∷ ("used_traffic_bytes", uint64)
      ∷ ("lifetime_used_traffic_bytes", uint64)
      ∷ ("telegram_id", int64)
      ∷ ("internal_squads", strings)
      ∷ ("created_at", date_time)
      ∷ ("online_at", date_time)
      ∷ ("first_connected_at", date_time)
      ∷ ("sub_revoked_at", date_time)
      ∷ ("last_connected_node_uuid", string)
      ∷ ("updated_at", date_time)
      ∷ [];
}

abbrev pub dim_nodes : Table
dim_nodes = record {
  name = "dim_nodes";
  columns =
      ("node_id", uint64)
      ∷ ("uuid", string)
      ∷ ("name", string)
      ∷ ("country_code", string)
      ∷ ("address", string)
      ∷ ("provider", string)
      ∷ ("tags", strings)
      ∷ ("updated_at", date_time)
      ∷ [];
}

abbrev pub dim_hwid_devices : Table
dim_hwid_devices = record {
  name = "dim_hwid_devices";
  columns =
      ("user_id", uint64)
      ∷ ("hwid", string)
      ∷ ("platform", string)
      ∷ ("os_version", string)
      ∷ ("device_model", string)
      ∷ ("user_agent", string)
      ∷ ("request_ip", string)
      ∷ ("created_at", date_time)
      ∷ ("updated_at", date_time)
      ∷ ("synced_at", date_time)
      ∷ [];
}

-- a value of the Go type that goes with the type of the column
unfoldable pub matches : ColumnType → Cell → Bool
matches date_time (at t) = true
matches uint8 (u8 n) = true
matches uint32 (u32 n) = true
matches uint64 (u64 n) = true
matches int64 (i64 n) = true
matches string (txt s) = true
matches strings (txts ss) = true
matches _ _ = false

-- a row with one such value for each column, in order
unfoldable pub fits : List (String × ColumnType) → Row → Bool
unfolding matches
fits [] [] = true
fits [] (cell ∷ row) = false
fits (c ∷ cs) [] = false
fits (c ∷ cs) (cell ∷ row) = matches c.1 cell && fits cs row

abbrev pub column_names : Table → List String
column_names t = map (λ (c : String × ColumnType). c.0) t.columns

-- the tables in the order in which the file creates them
abbrev pub tables : List Table
tables =
    user_usage ∷ sub_requests ∷ node_connections ∷ torrent_reports ∷ dim_users ∷ dim_nodes
    ∷ dim_hwid_devices ∷ []
