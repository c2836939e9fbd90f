-- ===== src/Sink.antt =====
-- internal/sink/clickhouse.go: Insert. The connection is a parameter: what it answers to one call.
pub mod Connect
pub mod Outcome
use remnanode_exporter.Prelude.{
  String, Bool, true, false, not, List, [], ◌∷◌, if◌then◌else◌, length, Result, ok, err,
}
use remnanode_exporter.Events.{
  Row, Event, committed, aborted, unconfirmed, rows_inserted, flush_errors, flush_duration,
}

-- What ClickHouse answers: to PrepareBatch, to Append of a row, and to Send. Whether it holds a batch
-- whose Send reports an error is left open.
pub record Conn : Type 0 where
  pub prepares : Bool
  pub accepts : Row → Bool
  pub sends : Bool

pub data InsertError : Type 0 where
  prepare_batch append_row send_batch : String → InsertError

-- the loop over batch.Append, which returns at the first row that is refused
unfoldable pub append_all : Conn → List Row → Bool
append_all conn [] = true
append_all conn (row ∷ rows) = if conn.accepts row then append_all conn rows else false

-- Writer.Insert
unfoldable pub insert :
    String → Conn → String → List String → List Row → Result InsertError (Unit {0}) × List Event
insert db conn table cols [] = (ok tt, [])
insert db conn table cols (row ∷ rows) =
    if not conn.prepares
    then (err (prepare_batch table), flush_errors table ∷ [])
    else if not (append_all conn (row ∷ rows))
    then (err (append_row table), aborted table ∷ flush_errors table ∷ [])
    else if not conn.sends
    then (err (send_batch table), unconfirmed db table cols (row ∷ rows) ∷ flush_errors table ∷ [])
    else (
      ok tt,
      committed db table cols (row ∷ rows)
          ∷ flush_duration table
          ∷ rows_inserted table (length (row ∷ rows))
          ∷ [],
    )
