-- ===== src/Events.antt =====
-- What the program does to the world outside, as a log in order: rows of ClickHouse, acknowledged
-- stream entries, and the Prometheus metrics of internal/metrics/metrics.go.
use remnanode_exporter.Prelude.{ℕ, String, List, [], str_eq, if◌then◌else◌, Text, concat_map, ℤ}
use remnanode_exporter.Model.{Time}

-- one value of a row, `any` in the source
pub data Cell : Type 0 where
  at : Time → Cell
  u8 : ℕ → Cell
  u32 : ℕ → Cell
  u64 : ℕ → Cell
  i64 : ℤ → Cell
  txt : Text → Cell
  txts : List Text → Cell

abbrev pub Row : Type 0
Row = List Cell

pub data Event : Type 0 where
  -- a batch that ClickHouse confirmed: the database, the table, its columns and the rows
  committed : String → String → List String → List Row → Event
  -- a batch whose Send reported an error: ClickHouse may hold it, when the answer was lost, or not
  unconfirmed : String → String → List String → List Row → Event
  aborted : String → Event
  -- XGROUP CREATE MKSTREAM: stream, group, start
  group_created : String → Text → Text → Event
  -- XACK: stream, group, ids
  acked : String → Text → List String → Event
  messages_read : String → Event
  messages_failed : String → Event
  rows_inserted : String → ℕ → Event
  flush_errors : String → Event
  flush_duration : String → Event
  stream_lag : String → ℕ → Event
  dict_size : String → ℕ → Event
  dict_errors : String → Event

-- the rows that a log stored in a table, those of the batches that were confirmed
abbrev pub stored_by : String → Event → List Row
stored_by table (committed db t cols rows) = if str_eq t table then rows else []
stored_by table _ = []

abbrev pub stored : String → List Event → List Row
stored table log = concat_map (stored_by table) log

-- the entries that a log acknowledged
abbrev pub acked_by : Event → List String
acked_by (acked stream group ids) = ids
acked_by _ = []

abbrev pub acks : List Event → List String
acks log = concat_map acked_by log
