-- ===== src/Logged.antt =====
-- A property of logs that each insert and each other event keeps holds of the log of any run.
pub mod Worker
pub mod Rows
pub mod Stores
pub mod Process
pub mod Tables
pub mod Syncer
use remnanode_exporter.Events.{
  group_created, stream_lag, messages_failed, acked, messages_read, Row, Event, committed,
  unconfirmed, rows_inserted,
}
use remnanode_exporter.Sink.{Conn, InsertError, insert}
use remnanode_exporter.Prelude.{String, List, [], ◌∷◌, ◌++◌, All}

-- neither a batch, confirmed or not, nor the count of its rows, which Insert alone logs
abbrev pub IsQuiet : Event → Type 0
IsQuiet (committed db table cols rows) = ⊥
IsQuiet (unconfirmed db table cols rows) = ⊥
IsQuiet (rows_inserted table n) = ⊥
IsQuiet _ = Unit {0}

-- `P` is what holds of the rows that are inserted into a table under its columns.
pub record LogLaws (P : String → List String → Row → Type 0) (Q : List Event → Type 0)
    : Type 0 where
  pub empty : Q []
  pub append : (xs ys : List Event) → Q xs → Q ys → Q (xs ++ ys)
  pub quiet : (e : Event) → IsQuiet e → Q (e ∷ [])
  pub inserted :
      (db : String) (conn : Conn) (table : String) (cols : List String) (rows : List Row)
      → All (P table cols) rows
      → Q (insert db conn table cols rows).1
