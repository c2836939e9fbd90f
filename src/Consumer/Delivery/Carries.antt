-- ===== src/Consumer/Delivery/Carries.antt =====
-- What a round carries over while ClickHouse takes every batch and Redis every XACK.
use remnanode_exporter.Prelude.{
  ℕ, ◌+◌, String, ◌≡◌, refl, sym, ◌∙◌, ◌≢◌, inl, inr, Bool, true, Option, none, some, List, [], ◌∷◌,
  ◌++◌, append_assoc, append-nil, map, ◌==◌, Bool-cases, length, ne-nil_of_length, concat_map, All,
  Result, ok, err, ◌-ℤ◌, ltb_ℤ, concat_map-append, map-append,
}
use remnanode_exporter.Consumer.{
  Decoder, Options, State, Message, FlushEnv, RoundEnv, Round, ReadAnswer, timeout, failed, entries,
  stop, work, emit, consume, consume_all, consume_streams, some_fst, read_once, tick, claim_stale,
  flush, maybe_flush, is_due, settle, report_pending, after_read, run_loop, second,
}
use remnanode_exporter.Consumer.Bounds.{consume-ConsumeSpec}
use remnanode_exporter.Consumer.Delivery.{rows_of, row_or_none}
use remnanode_exporter.Consumer.Entries.{round_entries, claimed_entries, read_entries}
use remnanode_exporter.Consumer.Flush.{FlushSpec, flush-FlushSpec, flush_ok, FlushSpec-of_ok}
use remnanode_exporter.Events.{Event, Row, acks, stored, stream_lag}
use remnanode_exporter.Model.{Time, ParseError}
use remnanode_exporter.Sink.{InsertError}

-- ClickHouse takes every batch, and XACK succeeds
pub record IsHealthy (env : FlushEnv) : Type 0 where
  pub prepares : env.conn.prepares ≡ true
  pub accepts : (row : Row) → env.conn.accepts row ≡ true
  pub sends : env.conn.sends ≡ true
  pub acks_ok : env.acks_ok ≡ true

-- a turn of the loop that is not the last one, in such an environment
abbrev pub IsHealthyRound : Round → Type 0
IsHealthyRound (stop env) = ⊥
IsHealthyRound (work claim answer env) = IsHealthy env.flush_env

accepts_All :
    (env : FlushEnv) (rows : List Row)
    → IsHealthy env
    → All (λ row. env.conn.accepts row ≡ true) rows
accepts_All env [] h = tt
accepts_All env (row ∷ rows) h = (h.accepts row, accepts_All env rows h)

module _ (db : String) (dec : Decoder) (opt : Options) where
  -- From `s` to `t` the entries `es` were taken in: what is acknowledged and what waits for it are
  -- those of `s` and the ids of `es`, in order, and the same of the rows.
  pub record Carries (es : List Message) (s t : State) : Type 0 where
    pub ids : acks t.log ++ t.pending ≡ (acks s.log ++ s.pending) ++ map (λ (m : Message). m.id) es
    pub row_list :
        stored dec.table t.log ++ t.rows
        ≡ (stored dec.table s.log ++ s.rows) ++ concat_map (rows_of dec) es

  pub same-Carries : (s : State) → Carries [] s s
  same-Carries s = record { ids = sym (append-nil _); row_list = sym (append-nil _) }

  pub trans-Carries :
      (es fs : List Message) (s t u : State)
      → Carries es s t
      → Carries fs t u
      → Carries (es ++ fs) s u
  trans-Carries es fs s t u a b = record {
    ids = b.ids ∙ simp (a.ids, map-append, append_assoc);
    row_list = b.row_list ∙ simp (a.row_list, concat_map-append, append_assoc);
  }

  -- events that store and acknowledge nothing
  pub emit-Carries :
      (events : List Event) (s : State)
      → acks events ≡ []
      → stored dec.table events ≡ []
      → Carries [] s (emit events s)
  unfolding emit
  emit-Carries events s a b = record {
    ids = simp (concat_map-append, a, append-nil);
    row_list = simp (concat_map-append, b, append-nil);
  }

  decoded_rows :
      (r : Result ParseError (List Row))
      → elim r [ ok rows ↦ rows | err e ↦ [] ] ≡ row_or_none dec r
  unfolding row_or_none
  decoded_rows (ok rows) = refl
  decoded_rows (err e) = refl

  consume-Carries : (msg : Message) (s : State) → Carries (msg ∷ []) s (consume db dec opt msg s)
  unfolding rows_of
  consume-Carries msg s =
      let (rows, pending, acked, kept) = consume-ConsumeSpec db dec opt msg s in
      record {
        ids = simp (acked, pending, append_assoc);
        row_list =
            simp (kept, rows, decoded_rows (dec.decode msg.values), append_assoc, append-nil);
      }

  pub consume_all-Carries :
      (msgs : List Message) (s : State) → Carries msgs s (consume_all db dec opt msgs s)
  unfolding consume_all
  consume_all-Carries [] s = same-Carries s
  consume_all-Carries (msg ∷ msgs) s =
      let next = consume db dec opt msg s in
      trans-Carries (msg ∷ []) msgs s next _ (consume-Carries msg s) (consume_all-Carries msgs next)

  consume_streams-Carries :
      (streams : List (List Message)) (n : ℕ) (s : State)
      → Carries
          (concat_map (λ (msgs : List Message). msgs) streams)
          s
          (consume_streams db dec opt streams n s).1
  unfolding consume_streams
  consume_streams-Carries [] n s = same-Carries s
  consume_streams-Carries (msgs ∷ streams) n s =
      let next = consume_all db dec opt msgs s in
      trans-Carries msgs _ s next _ (consume_all-Carries msgs s)
        (consume_streams-Carries streams (n + length msgs) next)

  read_once-Carries :
      (answer : ReadAnswer) (s : State)
      → Carries (read_entries answer) s (read_once db dec opt answer s).1
  unfolding read_once some_fst
  read_once-Carries timeout s = same-Carries s
  read_once-Carries failed s = same-Carries s
  read_once-Carries (entries streams) s = consume_streams-Carries streams 0 s

  tick-Carries :
      (claim : Option (Option (List Message))) (s : State)
      → Carries (claimed_entries claim) s (tick db dec opt claim s)
  unfolding tick claim_stale
  tick-Carries none s = same-Carries s
  tick-Carries (some none) s = same-Carries s
  tick-Carries (some (some msgs)) s = consume_all-Carries msgs s

  -- a flush of a buffer with entries in a healthy environment
  pub flush_healthy :
      (env : FlushEnv) (s : State)
      → IsHealthy env
      → s.pending ≢ []
      → ((flush db dec opt env s).0 ≡ ok tt)
        × FlushSpec db dec opt env s (ok tt) (flush db dec opt env s).1
  flush_healthy env s h ne =
      let e = flush_ok db dec opt env s ne (h.prepares, accepts_All env s.rows h, h.sends) in
      (e, FlushSpec-of_ok db dec opt env s _ _ e (flush-FlushSpec db dec opt env s ne))

  pub FlushSpec-Carries :
      (env : FlushEnv) (s t : State)
      → IsHealthy env
      → FlushSpec db dec opt env s (ok tt) t
      → Carries [] s t
  FlushSpec-Carries env s t h (rows, pending, kept, acked) = record {
    ids = rw (pending, acked, h.acks_ok) refl;
    row_list = rw (rows, kept) refl;
  }

  -- the flush of a round, with the buffer dropped on an error
  settle-Carries :
      (env : FlushEnv) (r : Result InsertError (Unit {0})) (s t : State)
      → r ≡ ok tt
      → Carries [] s t
      → Carries [] s (settle db dec opt env (r, t))
  unfolding settle
  settle-Carries env (ok u) s t e h = h
  settle-Carries env (err x) s t e h = cc

  maybe_flush-Carries :
      (idle : Bool) (now : Time) (env : FlushEnv) (s : State)
      → IsHealthy env
      → Carries [] s (settle db dec opt env (maybe_flush db dec opt idle now env s))
  unfolding maybe_flush
  maybe_flush-Carries idle now env s h = elim (Bool-cases (length s.pending == 0)) [
    | inl e ↦ rw e (settle-Carries env (ok tt) s s refl (same-Carries s))
    | inr e ↦ elim (Bool-cases (is_due db dec opt idle now s)) [
      | inr early ↦ rw (e, early) (settle-Carries env (ok tt) s s refl (same-Carries s))
      | inl due ↦
          let (k, spec) = flush_healthy env s h (ne-nil_of_length s.pending e) in
          rw (e, due) (settle-Carries env _ s _ k (FlushSpec-Carries env s _ h spec))
    ]
  ]

  lag_Carries :
      (now : Time) (lag : Option ℕ) (s t : State)
      → Carries [] s t
      → Carries [] s (elim lag [ none ↦ t | some n ↦ emit (stream_lag dec.stream n ∷ []) t ])
  unfolding emit
  lag_Carries now none s t h = h
  lag_Carries now (some n) s t h = record {
    ids = simp (concat_map-append, append-nil) (h.ids ∙ append-nil _);
    row_list = simp (concat_map-append, append-nil) (h.row_list ∙ append-nil _);
  }

  report_pending-Carries :
      (now : Time) (lag : Option ℕ) (s t : State)
      → Carries [] s t
      → Carries [] s (report_pending db dec opt now lag t)
  unfolding report_pending emit
  report_pending-Carries now lag s t h = elim (Bool-cases (ltb_ℤ (now -ℤ t.last_flush) second)) [
    | inl e ↦ rw e h
    | inr e ↦ rw e (lag_Carries now lag s t h)
  ]

  pub after_read-Carries :
      (env : RoundEnv) (o : Option ℕ) (s : State)
      → IsHealthy env.flush_env
      → Carries [] s (after_read db dec opt env (o, s))
  unfolding after_read
  after_read-Carries env none s h = same-Carries s
  after_read-Carries env (some n) s h =
      report_pending-Carries env.lag_check env.lag s _
        (maybe_flush-Carries (n == 0) env.flush_check env.flush_env s h)

  pub run_loop-Carries :
      (rounds : List Round) (s : State)
      → All IsHealthyRound rounds
      → Carries (concat_map round_entries rounds) s (run_loop db dec opt rounds s)
  unfolding run_loop
  run_loop-Carries [] s h = same-Carries s
  run_loop-Carries (stop env ∷ rest) s (h, hs) = absurd h
  run_loop-Carries (work claim answer env ∷ rest) s (h, hs) =
      let ticked = tick db dec opt claim s in
      let (o, read) = read_once db dec opt answer ticked in
      let next = after_read db dec opt env (o, read) in
      trans-Carries _ _ s next _
        (rw (sym (append-nil (claimed_entries claim ++ read_entries answer))) (
          trans-Carries (claimed_entries claim ++ read_entries answer) [] s read next
            (trans-Carries (claimed_entries claim) (read_entries answer) s ticked read
              (tick-Carries claim s) (read_once-Carries answer ticked))
            (after_read-Carries env o read h)))
        (run_loop-Carries rest next hs)
