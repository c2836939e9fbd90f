-- ===== src/Consumer.antt =====
-- internal/consumer/consumer.go: the worker of one stream. Redis, ClickHouse and the clock are
-- parameters: each call is handed what they answer.
mod Types
pub mod Delivery
pub mod Flush
pub mod Decoders
pub mod Bounds
pub mod Walk
pub mod Entries
pub use Types.*
use remnanode_exporter.Prelude.{
  ℕ, ◌+◌, String, Bool, ◌||◌, Option, none, some, List, [], ◌∷◌, ◌++◌, leb, ◌==◌, if◌then◌else◌,
  Text, codes, length, Result, ok, err, ℤ, pos, ◌-ℤ◌, ltb_ℤ, leb_ℤ,
}
use remnanode_exporter.Strings.{contains}
use remnanode_exporter.Model.{Time, Fields, ParseError}
use remnanode_exporter.Events.{
  Row, Event, group_created, acked, messages_read, messages_failed, stream_lag,
}
use remnanode_exporter.Sink.{Conn, InsertError, insert}

abbrev pub second : ℤ
second = pos 1000000000

unfoldable pub emit : List Event → State → State
emit events s = record s { log = s.log ++ events }

unfoldable pub drop_buffer : Time → State → State
drop_buffer now s = record s { worker = record { rows = []; pending = []; last_flush = now } }

-- NewWorker, with nothing done yet
unfoldable pub new_worker : Time → State
new_worker now = record { worker = record { rows = []; pending = []; last_flush = now }; log = [] }

-- isBusyGroup, on the message of an error
unfoldable pub is_busy_group : Text → Bool
is_busy_group message = contains message (codes "BUSYGROUP")

module _ (db : String) (dec : Decoder) (opt : Options) where
  -- ensureGroup; the answer of XGROUP CREATE is an error's message, or none
  unfoldable pub ensure_group : Option Text → State → Result Text (Unit {0}) × State
  unfolding emit is_busy_group
  ensure_group answer s =
      let start = if opt.start_from_beginning then codes "0" else codes "$" in
      elim answer [
        | none ↦ (ok tt, emit (group_created dec.stream opt.group start ∷ []) s)
        | some message ↦ if is_busy_group message then (ok tt, s) else (err message, s)
      ]

  unfoldable pub buffer : Message → Result ParseError (List Row) → State → State
  unfolding emit
  buffer msg (err e) s =
      let s' = emit (messages_failed dec.stream ∷ []) s in
      record s' { worker = record s'.worker { pending = s.pending ++ msg.id ∷ [] } }
  buffer msg (ok rows) s = record s {
    worker = record s.worker { rows = s.rows ++ rows; pending = s.pending ++ msg.id ∷ [] };
  }

  unfoldable pub consume : Message → State → State
  unfolding emit buffer
  consume msg s = buffer msg (dec.decode msg.values) (emit (messages_read dec.stream ∷ []) s)

  unfoldable pub consume_all : List Message → State → State
  consume_all [] s = s
  consume_all (msg ∷ msgs) s = consume_all msgs (consume msg s)

  -- flush, behind the insert
  unfoldable pub after_insert :
      FlushEnv
      → Result InsertError (Unit {0}) × List Event
      → State
      → Result InsertError (Unit {0}) × State
  unfolding emit drop_buffer
  after_insert env (err e, events) s = (err e, emit events s)
  after_insert env (ok u, events) s =
      let s1 = emit events s in
      let s2 = if env.acks_ok then emit (acked dec.stream opt.group s.pending ∷ []) s1 else s1 in
      (ok tt, drop_buffer env.now s2)

  unfoldable pub flush : FlushEnv → State → Result InsertError (Unit {0}) × State
  flush env s =
      if length s.pending == 0
      then (ok tt, s)
      else after_insert env (insert db env.conn dec.table dec.columns s.rows) s

  unfoldable pub is_due : Bool → Time → State → Bool
  is_due idle now s =
      leb opt.flush_max_rows (length s.rows)
      || idle
      || leb_ℤ opt.flush_interval (now -ℤ s.last_flush)

  unfoldable pub maybe_flush :
      Bool → Time → FlushEnv → State → Result InsertError (Unit {0}) × State
  maybe_flush idle now env s =
      if length s.pending == 0
      then (ok tt, s)
      else if is_due idle now s
      then flush env s
      else (ok tt, s)

  -- readOnce; `none` is an error, `some n` the number of entries read
  unfoldable pub consume_streams : List (List Message) → ℕ → State → ℕ × State
  consume_streams [] n s = (n, s)
  consume_streams (msgs ∷ streams) n s =
      consume_streams streams (n + length msgs) (consume_all msgs s)

  unfoldable pub some_fst : ℕ × State → Option ℕ × State
  some_fst (n, s) = (some n, s)

  unfoldable pub read_once : ReadAnswer → State → Option ℕ × State
  read_once timeout s = (some 0, s)
  read_once failed s = (none, s)
  read_once (entries streams) s = some_fst (consume_streams streams 0 s)

  -- recoverOwnPending; each round is what XREADGROUP from 0 answers and what the flush meets
  unfoldable pub recover_flush :
      Result InsertError (Unit {0}) × State → Time → Result InsertError (Unit {0}) × State
  unfolding drop_buffer
  recover_flush (ok u, s) now = (ok u, s)
  recover_flush (err e, s) now = (err e, drop_buffer now s)

  unfoldable pub first_stream : ReadAnswer → List Message
  first_stream timeout = []
  first_stream failed = []
  first_stream (entries []) = []
  first_stream (entries (msgs ∷ streams)) = msgs

  -- the loop goes on only behind a flush that succeeded
  unfoldable pub go_on : (State → State) → Result InsertError (Unit {0}) × State → State
  go_on next (ok u, s) = next s
  go_on next (err e, s) = s

  unfoldable pub recover_own_pending : List (ReadAnswer × FlushEnv) → State → State
  recover_own_pending [] s = s
  recover_own_pending ((answer, env) ∷ rest) s =
      let msgs = first_stream answer in
      let flushed = recover_flush (flush env (consume_all msgs s)) env.now in
      if length msgs == 0 then s else go_on (recover_own_pending rest) flushed

  -- claimStale; `none` is an error
  unfoldable pub claim_stale : Option (List Message) → State → State
  claim_stale none s = s
  claim_stale (some msgs) s = consume_all msgs s

  unfoldable pub report_pending : Time → Option ℕ → State → State
  unfolding emit
  report_pending now lag s =
      if ltb_ℤ (now -ℤ s.last_flush) second
      then s
      else elim lag [ none ↦ s | some n ↦ emit (stream_lag dec.stream n ∷ []) s ]

  unfoldable pub tick : Option (Option (List Message)) → State → State
  tick none s = s
  tick (some answer) s = claim_stale answer s

  -- a flush that failed drops the buffer: the entries stay unacknowledged
  unfoldable pub settle : FlushEnv → Result InsertError (Unit {0}) × State → State
  unfolding drop_buffer
  settle env (ok u, s) = s
  settle env (err e, s) = drop_buffer env.now s

  unfoldable pub after_read : RoundEnv → Option ℕ × State → State
  after_read env (none, s) = s
  after_read env (some n, s) =
      report_pending env.lag_check env.lag
        (settle env.flush_env (maybe_flush (n == 0) env.flush_check env.flush_env s))

  -- Run, behind ensureGroup and recoverOwnPending
  unfoldable pub run_loop : List Round → State → State
  run_loop [] s = s
  run_loop (stop env ∷ rest) s = (flush env s).1
  run_loop (work claim answer env ∷ rest) s =
      run_loop rest (after_read env (read_once answer (tick claim s)))

  unfoldable pub after_group :
      List (ReadAnswer × FlushEnv)
      → List Round
      → Result Text (Unit {0}) × State
      → Result Text (Unit {0}) × State
  after_group recovery rounds (err e, s) = (err e, s)
  after_group recovery rounds (ok u, s) = (ok tt, run_loop rounds (recover_own_pending recovery s))

  unfoldable pub run :
      Option Text
      → List (ReadAnswer × FlushEnv)
      → List Round
      → State
      → Result Text (Unit {0}) × State
  run group recovery rounds s = after_group recovery rounds (ensure_group group s)
