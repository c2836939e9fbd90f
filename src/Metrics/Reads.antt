-- ===== src/Metrics/Reads.antt =====
-- The counters of entries and the entries that the loop of a worker took in.
use remnanode_exporter.Events.{stream_lag, acked, messages_read, Event, Row}
use remnanode_exporter.Model.{ParseError}
use remnanode_exporter.Metrics.{counter, counter-append, messages_read_opts, messages_failed_opts}
use remnanode_exporter.Sink.{Conn, InsertError, insert}
use remnanode_exporter.Consumer.{
  State, Decoder, Options, Message, FlushEnv, Round, emit, drop_buffer, consume, buffer,
  after_insert, flush, run_loop,
}
use remnanode_exporter.Consumer.Entries.{taken_in}
use remnanode_exporter.Consumer.Walk.{StepLaws, run_loop_walk}
use remnanode_exporter.Prelude.{
  ◌+◌, String, ◌≡◌, refl, inl, inr, Bool, true, false, List, [], ◌∷◌, ◌++◌, arith, eq_iff, str_eq,
  ◌==◌, if◌then◌else◌, Bool-cases, length, length-append, Result, ok, err,
}

abbrev is_failed : Result ParseError (List Row) → Bool
is_failed (ok rows) = false
is_failed (err e) = true

module _ (dec : Decoder) where
  -- the entries that cannot be decoded
  abbrev pub undecodable : List Message → List Message
  undecodable [] = []
  undecodable (msg ∷ msgs) =
      if is_failed (dec.decode msg.values) then msg ∷ undecodable msgs else undecodable msgs

  undecodable-append :
      (es fs : List Message) → undecodable (es ++ fs) ≡ undecodable es ++ undecodable fs
  undecodable-append [] fs = refl
  undecodable-append (e ∷ es) fs = elim (Bool-cases (is_failed (dec.decode e.values))) [
    | inl b ↦ rw (b, undecodable-append es fs)
    | inr b ↦ rw (b, undecodable-append es fs)
  ]

  -- From the log `s` to the log `t` the two counters of the stream grew by these entries and by those
  -- among them that cannot be decoded.
  pub record Counts (es : List Message) (s t : List Event) : Type 0 where
    pub read :
        counter messages_read_opts dec.stream t
        ≡ counter messages_read_opts dec.stream s + length es
    pub failures :
        counter messages_failed_opts dec.stream t
        ≡ counter messages_failed_opts dec.stream s + length (undecodable es)

  same-Counts : (s : List Event) → Counts [] s s
  same-Counts s = record { read = omega arith; failures = omega arith }

  trans-Counts :
      (es fs : List Message) (s t u : List Event)
      → Counts es s t
      → Counts fs t u
      → Counts (es ++ fs) s u
  trans-Counts es fs s t u a b = record {
    read = omega (arith, a.read, b.read, length-append es fs);
    failures =
        rw (undecodable-append es fs)
          (omega (arith, a.failures, b.failures, length-append (undecodable es) (undecodable fs)));
  }

  -- events that count no entry
  abbrev Silent : List Event → Type 0
  Silent events =
      (counter messages_read_opts dec.stream events ≡ 0)
      × (counter messages_failed_opts dec.stream events ≡ 0)

  append-Counts : (s events : List Event) → Silent events → Counts [] s (s ++ events)
  append-Counts s events (r, f) = record {
    read = omega (arith, counter-append messages_read_opts dec.stream s events, r);
    failures = omega (arith, counter-append messages_failed_opts dec.stream s events, f);
  }

  insert-Silent :
      (db : String) (conn : Conn) (table : String) (cols : List String) (rows : List Row)
      → Silent (insert db conn table cols rows).1
  unfolding insert
  insert-Silent db conn table cols [] = (refl, refl)
  insert-Silent db conn table cols (row ∷ rows) = ground arith

  own_stream : str_eq dec.stream dec.stream ≡ true
  own_stream = (eq_iff dec.stream dec.stream).1 refl

  module _ (db : String) (opt : Options) where
    buffer-Counts :
        (msg : Message) (r : Result ParseError (List Row)) (s : State)
        → dec.decode msg.values ≡ r
        → Counts
            (msg ∷ [])
            s.log
            (buffer db dec opt msg r (emit (messages_read dec.stream ∷ []) s)).log
    unfolding buffer emit
    buffer-Counts msg (ok rows) s e = record {
      read = simp counter-append (rw (own_stream) (omega arith));
      failures = rw e (simp counter-append (omega arith));
    }
    buffer-Counts msg (err x) s e = record {
      read = simp counter-append (rw (own_stream) (omega arith));
      failures = rw e (simp counter-append (rw (own_stream) (omega arith)));
    }

    consume-Counts :
        (msg : Message) (s : State) → Counts (msg ∷ []) s.log (consume db dec opt msg s).log
    unfolding consume
    consume-Counts msg s = buffer-Counts msg (dec.decode msg.values) s refl

    after_insert-Counts :
        (env : FlushEnv) (r : Result InsertError (Unit {0})) (events : List Event) (s : State)
        → Silent events
        → Counts [] s.log (after_insert db dec opt env (r, events) s).1.log
    unfolding after_insert emit drop_buffer
    after_insert-Counts env (err e) events s q = append-Counts s.log events q
    after_insert-Counts env (ok u) events s q = elim (Bool-cases env.acks_ok) [
      | inl e ↦ rw e (
          trans-Counts [] [] s.log (s.log ++ events) _ (append-Counts s.log events q) (
            append-Counts (s.log ++ events) (acked dec.stream opt.group s.pending ∷ [])
              (refl, refl)))
      | inr e ↦ rw e (append-Counts s.log events q)
    ]

    flush-Counts : (env : FlushEnv) (s : State) → Counts [] s.log (flush db dec opt env s).1.log
    unfolding flush
    flush-Counts env s = elim (Bool-cases (length s.pending == 0)) [
      | inl e ↦ rw e (same-Counts s.log)
      | inr e ↦
          rw e
            (after_insert-Counts env _ _ s (insert-Silent db env.conn dec.table dec.columns s.rows))
    ]

    laws : StepLaws db dec opt (λ es s t. Counts es s.log t.log)
    unfolding emit drop_buffer
    laws = record {
      same = λ s. same-Counts s.log;
      trans = λ es fs s t u. trans-Counts es fs s.log t.log u.log;
      consumes = consume-Counts;
      flushes = flush-Counts;
      drops = λ now s. same-Counts s.log;
      reports = λ n s. append-Counts s.log (stream_lag dec.stream n ∷ []) (refl, refl);
    }

    -- The counters of the loop are true: whatever Redis, ClickHouse and the clock do, from any state,
    -- the loop adds to messages_read of its stream the number of entries that it claimed or read before
    -- it was stopped, and to messages_failed the number of those among them that cannot be decoded.
    pub run_loop-Counts :
        (rounds : List Round) (s : State)
        → Counts (taken_in rounds) s.log (run_loop db dec opt rounds s).log
    run_loop-Counts rounds s = run_loop_walk db dec opt _ laws rounds s
