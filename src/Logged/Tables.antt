-- ===== src/Logged/Tables.antt =====
-- What the process stores fits the tables that the schema creates.
use remnanode_exporter.Geoip.{Info}
use remnanode_exporter.Consumer.Decoders.{
  user_usage_decoder, sub_request_decoder, node_connections_decoder,
}
use remnanode_exporter.Consumer.Decoders.Shape.{
  connection-FitsTable, request-FitsTable, usage-FitsTable, FitsTable,
}
use remnanode_exporter.Consumer.Delivery.{row_or_none}
use remnanode_exporter.Model.{Fields, Codec}
use remnanode_exporter.Logged.Process.{process_logged, process_log, SyncerRun, Makes, WorkerRun}
use remnanode_exporter.Consumer.{Decoder}
use remnanode_exporter.Logged.Rows.{RowLaws}
use remnanode_exporter.Panel.Fit.{report-FitsAs, device-FitsAs, node-FitsAs, user-FitsAs, FitsAs}
use mathlib.Core.List.{mem-cons_self, mem-cons_of_mem, Mem}
use remnanode_exporter.Events.{
  Event, Row, committed, rows_inserted, aborted, unconfirmed, group_created, acked, messages_read,
  messages_failed, flush_errors, flush_duration, stream_lag, dict_size, dict_errors,
}
use remnanode_exporter.Logged.{LogLaws, IsQuiet}
use remnanode_exporter.Schema.Tables.{
  torrent_reports, node_connections, dim_hwid_devices, sub_requests, dim_nodes, user_usage,
  dim_users, Table, fits, column_names, tables,
}
use remnanode_exporter.Sink.{Conn, insert, append_all}
use remnanode_exporter.Prelude.{
  ℕ, zero, suc, String, ◌≡◌, inl, inr, Bool, true, Option, List, [], ◌∷◌, Bool-cases, Text, drop,
  All, All-append,
}

-- a row for one of the tables of the schema, under this table's columns, that fits
pub record FitsSchema (table : String) (cols : List String) (row : Row) : Type 0 where
  pub of : Table
  pub created : Mem of tables
  pub same_name : table ≡ of.name
  pub same_columns : cols ≡ column_names of
  pub row_fits : fits of.columns row ≡ true

-- every row of a batch that is sent fits, whether ClickHouse confirms it or not
abbrev pub BatchFits : Event → Type 0
BatchFits (committed db table cols rows) = All (FitsSchema table cols) rows
BatchFits (unconfirmed db table cols rows) = All (FitsSchema table cols) rows
BatchFits _ = Unit

quiet-BatchFits : (e : Event) → IsQuiet e → BatchFits e
quiet-BatchFits (committed db t cols rows) q = absurd q
quiet-BatchFits (unconfirmed db t cols rows) q = absurd q
quiet-BatchFits (rows_inserted t n) q = absurd q
quiet-BatchFits (aborted t) q = tt
quiet-BatchFits (group_created stream group start) q = tt
quiet-BatchFits (acked stream group ids) q = tt
quiet-BatchFits (messages_read stream) q = tt
quiet-BatchFits (messages_failed stream) q = tt
quiet-BatchFits (flush_errors t) q = tt
quiet-BatchFits (flush_duration t) q = tt
quiet-BatchFits (stream_lag stream n) q = tt
quiet-BatchFits (dict_size dict n) q = tt
quiet-BatchFits (dict_errors dict) q = tt

insert-BatchFits :
    (db : String) (conn : Conn) (t : String) (cols : List String) (rows : List Row)
    → All (FitsSchema t cols) rows
    → All BatchFits (insert db conn t cols rows).1
unfolding insert
insert-BatchFits db conn t cols [] h = tt
insert-BatchFits db conn t cols (row ∷ rows) h = elim (Bool-cases conn.prepares) [
  | inr e ↦ rw e (tt, tt)
  | inl e ↦ elim (Bool-cases (append_all conn (row ∷ rows))) [
    | inr e' ↦ rw (e', e) (tt, (tt, tt))
    | inl e' ↦ elim (Bool-cases conn.sends) [
      | inr e'' ↦ rw (e', e, e'') (h, (tt, tt))
      | inl e'' ↦ rw (e', e, e'') (h, (tt, (tt, tt)))
    ]
  ]
]

laws : LogLaws FitsSchema (All BatchFits)
laws = record {
  empty = tt;
  append = All-append BatchFits;
  quiet = λ e q. (quiet-BatchFits e q, tt);
  inserted = insert-BatchFits;
}

from_table :
    (t : Table) (table : String) (cols : List String) (row : Row)
    → Mem t tables
    → FitsAs t table cols row
    → FitsSchema table cols row
from_table t table cols row m (n, c, f) = record {
  of = t;
  created = m;
  same_name = n;
  same_columns = c;
  row_fits = f;
}

behind : (n : ℕ) (t : Table) (ts : List Table) → Mem t (drop n ts) → Mem t ts
behind zero t ts m = m
behind (suc n) t [] m = m
behind (suc n) t (u ∷ ts) m = mem-cons_of_mem u (behind n t ts m)

rows_fit : RowLaws FitsSchema
rows_fit = record {
  of_user = λ env u now.
      from_table dim_users _ _ _ (behind 4 dim_users tables mem-cons_self) (user-FitsAs env now u);
  of_node = λ n now.
      from_table dim_nodes _ _ _ (behind 5 dim_nodes tables mem-cons_self) (node-FitsAs now n);
  of_device = λ env d now.
      from_table dim_hwid_devices _ _ _ (behind 6 dim_hwid_devices tables mem-cons_self)
        (device-FitsAs env now d);
  of_report = λ env r geo.
      from_table torrent_reports _ _ _ (behind 3 torrent_reports tables mem-cons_self)
        (report-FitsAs env geo r);
}

-- the decoder is one of the three that main.go gives to its workers
pub data IsMain (dec : Decoder) : Type 0 where
  usage_stream : (c : Codec) → dec ≡ user_usage_decoder c → IsMain dec
  request_stream :
      (c : Codec) (geo : Text → Info) (fold : ℕ → ℕ)
      → dec ≡ sub_request_decoder c geo fold
      → IsMain dec
  connection_stream :
      (c : Codec) (geo : Text → Info) (infra : Option (Text → Bool))
      → dec ≡ node_connections_decoder c geo infra
      → IsMain dec

all_from_table :
    (t : Table) (table : String) (cols : List String) (rows : List Row)
    → Mem t tables
    → table ≡ t.name
    → cols ≡ column_names t
    → All (λ row. fits t.columns row ≡ true) rows
    → All (FitsSchema table cols) rows
all_from_table t table cols [] m n c h = tt
all_from_table t table cols (row ∷ rows) m n c (f, h) =
    (from_table t table cols row m (n, c, f), all_from_table t table cols rows m n c h)

abbrev RowsFit : Decoder → Type 0
RowsFit dec = (f : Fields) → All (FitsSchema dec.table dec.columns) (row_or_none dec (dec.decode f))

table_fits :
    (t : Table) (dec : Decoder) (f : Fields)
    → Mem t tables
    → FitsTable t dec f
    → All (FitsSchema dec.table dec.columns) (row_or_none dec (dec.decode f))
table_fits t dec f m (n, c, h) = all_from_table t dec.table dec.columns _ m n c h

main_fits : (dec : Decoder) → IsMain dec → RowsFit dec
main_fits dec (usage_stream c e) f =
    rw e
      (table_fits user_usage _ f (behind 0 user_usage tables mem-cons_self) (usage-FitsTable c f))
main_fits dec (request_stream c geo fold e) f = rw e (
    table_fits sub_requests _ f (behind 1 sub_requests tables mem-cons_self)
      (request-FitsTable c geo fold f))
main_fits dec (connection_stream c geo infra e) f = rw e (
    table_fits node_connections _ f (behind 2 node_connections tables mem-cons_self)
      (connection-FitsTable c geo infra f))

workers_fit :
    (db : String) (ws : List WorkerRun)
    → All (λ (w : WorkerRun). IsMain w.dec) ws
    → All (Makes db FitsSchema (All BatchFits) laws rows_fit) ws
workers_fit db [] h = tt
workers_fit db (w ∷ ws) (m, h) = (main_fits w.dec m, workers_fit db ws h)

-- Everything that the process stores fits its tables: over a run of any number of workers with the
-- decoders of main.go and of the Syncer, whatever Redis, the panel, ClickHouse and the clock do, each
-- row of each batch that is sent goes into a table that the schema creates, under this table's
-- columns in their order, and has one value for each column, of the Go type that goes with the
-- column's type.
pub process-BatchFits :
    (db : String) (ws : List WorkerRun) (s : SyncerRun)
    → All (λ (w : WorkerRun). IsMain w.dec) ws
    → All BatchFits (process_log db ws s)
process-BatchFits db ws s h =
    process_logged db FitsSchema (All BatchFits) laws rows_fit ws s (workers_fit db ws h)
