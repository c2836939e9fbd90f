-- ===== src/Logged/Worker.antt =====
-- What every insert and every other event keeps, over a run of the worker.
use remnanode_exporter.Events.{
  group_created, stream_lag, messages_failed, acked, messages_read, Row, Event,
}
use remnanode_exporter.Sink.{InsertError}
use remnanode_exporter.Model.{Fields, ParseError, Time}
use remnanode_exporter.Consumer.{
  run, consume, buffer, after_insert, drop_buffer, flush, State, Decoder, Options, Message,
  FlushEnv, Round, ReadAnswer, emit,
}
use remnanode_exporter.Consumer.Walk.{RunLaws, run_walk}
use remnanode_exporter.Prelude.{
  String, inl, inr, Option, List, [], ◌∷◌, ◌++◌, ◌==◌, Bool-cases, Text, length, All, All-append,
  Result, ok, err,
}
use remnanode_exporter.Consumer.Delivery.{row_or_none}
use remnanode_exporter.Logged.{IsQuiet, LogLaws}

module _ (P : String → List String → Row → Type 0) (Q : List Event → Type 0) (laws : LogLaws P Q)
    (db : String) (dec : Decoder) (opt : Options)
    (decodes : (f : Fields) → All (P dec.table dec.columns) (row_or_none dec (dec.decode f))) where
  -- of a state: the log, and the rows that wait
  pub record Holds (s : State) : Type 0 where
    pub log_holds : Q s.log
    pub rows_hold : All (P dec.table dec.columns) s.rows

  one : (e : Event) (s : State) → IsQuiet e → Holds s → Holds (emit (e ∷ []) s)
  unfolding emit
  one e s q h = record {
    log_holds = laws.append s.log (e ∷ []) h.log_holds (laws.quiet e q);
    rows_hold = h.rows_hold;
  }

  dropped : (now : Time) (s : State) → Q s.log → Holds (drop_buffer now s)
  unfolding drop_buffer
  dropped now s h = record { log_holds = h; rows_hold = tt }

  buffer_logged :
      (msg : Message) (r : Result ParseError (List Row)) (s : State)
      → All (P dec.table dec.columns) (row_or_none dec r)
      → Holds s
      → Holds (buffer db dec opt msg r s)
  unfolding buffer emit row_or_none
  buffer_logged msg (ok rows) s a h = record {
    log_holds = h.log_holds;
    rows_hold = All-append (P dec.table dec.columns) s.rows rows h.rows_hold a;
  }
  buffer_logged msg (err e) s a h = record {
    log_holds = (one (messages_failed dec.stream) s tt h).log_holds;
    rows_hold = h.rows_hold;
  }

  consume_logged : (msg : Message) (s : State) → Holds s → Holds (consume db dec opt msg s)
  unfolding consume
  consume_logged msg s h =
      buffer_logged msg (dec.decode msg.values) _ (decodes msg.values)
        (one (messages_read dec.stream) s tt h)

  after_insert_logged :
      (env : FlushEnv) (r : Result InsertError (Unit {0})) (events : List Event) (s : State)
      → Q events
      → Holds s
      → Holds (after_insert db dec opt env (r, events) s).1
  unfolding after_insert emit drop_buffer
  after_insert_logged env (err e) events s q h = record {
    log_holds = laws.append s.log events h.log_holds q;
    rows_hold = h.rows_hold;
  }
  after_insert_logged env (ok u) events s q h =
      let stored_log = laws.append s.log events h.log_holds q in
      elim (Bool-cases env.acks_ok) [
        | inl e ↦ rw e record {
          log_holds =
              laws.append (s.log ++ events) _ stored_log
                (laws.quiet (acked dec.stream opt.group s.pending) tt);
          rows_hold = tt;
        }
        | inr e ↦ rw e record { log_holds = stored_log; rows_hold = tt }
      ]

  flush_logged : (env : FlushEnv) (s : State) → Holds s → Holds (flush db dec opt env s).1
  unfolding flush
  flush_logged env s h = elim (Bool-cases (length s.pending == 0)) [
    | inl e ↦ rw e h
    | inr e ↦ rw e (
        after_insert_logged env _ _ s
          (laws.inserted db env.conn dec.table dec.columns s.rows h.rows_hold) h)
  ]

  walk : RunLaws db dec opt (λ es s t. Holds s → Holds t)
  walk = record {
    steps = record {
      same = λ s h. h;
      trans = λ es fs s t u f g h. g (f h);
      consumes = consume_logged;
      flushes = flush_logged;
      drops = λ now s h. dropped now s h.log_holds;
      reports = λ n s h. one (stream_lag dec.stream n) s tt h;
    };
    leaves = λ es s t f. f;
    creates = λ start s h. one (group_created dec.stream opt.group start) s tt h;
  }

  -- whatever Redis, ClickHouse and the clock do
  pub run_logged :
      (group : Option Text) (recovery : List (ReadAnswer × FlushEnv)) (rounds : List Round)
      (s : State)
      → Holds s
      → Holds (run db dec opt group recovery rounds s).1
  run_logged group recovery rounds s h = run_walk db dec opt _ walk group recovery rounds s h
