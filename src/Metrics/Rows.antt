-- ===== src/Metrics/Rows.antt =====
-- The counter of rows and the rows that ClickHouse confirmed.
use remnanode_exporter.Events.{
  Row, Event, stored, committed, rows_inserted, aborted, unconfirmed, group_created, acked,
  messages_read, messages_failed, flush_errors, flush_duration, stream_lag, dict_size, dict_errors,
}
use remnanode_exporter.Logged.{LogLaws, IsQuiet}
use remnanode_exporter.Logged.Process.{WorkerRun, SyncerRun, process_log, process_logged, Makes}
use remnanode_exporter.Logged.Rows.{RowLaws}
use remnanode_exporter.Metrics.{counter, counter-append, rows_inserted_opts}
use remnanode_exporter.Sink.{Conn, insert, append_all}
use remnanode_exporter.Prelude.{
  String, ◌≡◌, refl, inl, inr, List, [], ◌∷◌, ◌++◌, append-nil, arith, str_eq, Bool-cases, length,
  length-append, All, concat_map-append,
}

-- for each table the counter is the number of rows stored
abbrev pub CountsRows : List Event → Type 0
CountsRows log = (table : String) → counter rows_inserted_opts table log ≡ length (stored table log)

append-CountsRows : (xs ys : List Event) → CountsRows xs → CountsRows ys → CountsRows (xs ++ ys)
append-CountsRows xs ys h k table =
    simp (counter-append, concat_map-append, length-append, h table, k table)

quiet-CountsRows : (e : Event) → IsQuiet e → CountsRows (e ∷ [])
quiet-CountsRows (committed db t cols rows) q table = absurd q
quiet-CountsRows (unconfirmed db t cols rows) q table = absurd q
quiet-CountsRows (rows_inserted t n) q table = absurd q
quiet-CountsRows (aborted t) q table = refl
quiet-CountsRows (group_created stream group start) q table = refl
quiet-CountsRows (acked stream group ids) q table = refl
quiet-CountsRows (messages_read stream) q table = refl
quiet-CountsRows (messages_failed stream) q table = refl
quiet-CountsRows (flush_errors t) q table = refl
quiet-CountsRows (flush_duration t) q table = refl
quiet-CountsRows (stream_lag stream n) q table = refl
quiet-CountsRows (dict_size dict n) q table = refl
quiet-CountsRows (dict_errors dict) q table = refl

batch-CountsRows :
    (db t : String) (cols : List String) (rows : List Row)
    → CountsRows (committed db t cols rows ∷ flush_duration t ∷ rows_inserted t (length rows) ∷ [])
batch-CountsRows db t cols rows table = elim (Bool-cases (str_eq t table)) [
  | inl e ↦ rw e (simp append-nil (omega arith))
  | inr e ↦ rw e refl
]

insert-CountsRows :
    (db : String) (conn : Conn) (t : String) (cols : List String) (rows : List Row)
    → CountsRows (insert db conn t cols rows).1
unfolding insert
insert-CountsRows db conn t cols [] table = refl
insert-CountsRows db conn t cols (row ∷ rows) table = elim (Bool-cases conn.prepares) [
  | inr e ↦ rw e refl
  | inl e ↦ elim (Bool-cases (append_all conn (row ∷ rows))) [
    | inr e' ↦ rw (e', e) refl
    | inl e' ↦ elim (Bool-cases conn.sends) [
      | inr e'' ↦ rw (e', e, e'') refl
      | inl e'' ↦ rw (e', e, e'') (batch-CountsRows db t cols (row ∷ rows) table)
    ]
  ]
]

laws : LogLaws (λ table cols row. Unit) CountsRows
laws = record {
  empty = λ table. refl;
  append = append-CountsRows;
  quiet = quiet-CountsRows;
  inserted = λ db conn t cols rows a. insert-CountsRows db conn t cols rows;
}

rows_made : RowLaws (λ table cols row. Unit)
rows_made = record {
  of_user = λ env u now. tt;
  of_node = λ n now. tt;
  of_device = λ env d now. tt;
  of_report = λ env r geo. tt;
}

any_rows : (rows : List Row) → All (λ (row : Row). Unit {0}) rows
any_rows [] = tt
any_rows (row ∷ rows) = (tt, any_rows rows)

any_workers :
    (db : String) (ws : List WorkerRun)
    → All (Makes db (λ table cols row. Unit) CountsRows laws rows_made) ws
any_workers db [] = tt
any_workers db (w ∷ ws) = ((λ f. any_rows _), any_workers db ws)

-- The counter rows_inserted is true: over a run of any number of workers and of the Syncer, whatever
-- Redis, the panel, ClickHouse and the clock do and wherever each run ends, its value for each table
-- is the number of rows of the batches that ClickHouse confirmed for this table.
pub process-CountsRows :
    (db : String) (ws : List WorkerRun) (s : SyncerRun) (table : String)
    → counter rows_inserted_opts table (process_log db ws s)
      ≡ length (stored table (process_log db ws s))
process-CountsRows db ws s =
    process_logged db (λ table cols row. Unit) CountsRows laws rows_made ws s (any_workers db ws)
