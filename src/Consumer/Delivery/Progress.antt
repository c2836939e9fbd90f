-- ===== src/Consumer/Delivery/Progress.antt =====
-- Nothing is left behind while ClickHouse takes every batch and Redis every XACK.
use remnanode_exporter.Consumer.Walk.{RunLaws, recovery_walk, ensure_group_walk, run_loop_walk}
use remnanode_exporter.Consumer.Delivery.Restart.{group-Carries, recovery-Carries, recovered}
use remnanode_exporter.Prelude.{
  ℕ, String, ◌≡◌, refl, sym, ap, ◌∙◌, inl, inr, true, Option, none, some, List, [], ◌∷◌, ◌++◌,
  append-nil, map, arith, ◌==◌, Bool-cases, Text, length, ne-nil_of_length, eq-nil_of_length,
  concat_map, All, Result, ok, err,
}
use remnanode_exporter.Consumer.{
  after_group, run, ensure_group, FlushEnv, ReadAnswer, Decoder, Options, State, Message, FlushEnv,
  RoundEnv, Round, timeout, stop, work, emit, read_once, tick, maybe_flush, is_due, settle,
  report_pending, after_read, run_loop, new_worker,
}
use remnanode_exporter.Consumer.Bounds.{rows-eq-nil}
use remnanode_exporter.Consumer.Delivery.{rows_of, IsSound}
use remnanode_exporter.Consumer.Entries.{round_entries}
use remnanode_exporter.Consumer.Delivery.Runs.{IsSound-walk, new_worker-IsSound}
use remnanode_exporter.Events.{acks, stored}
use remnanode_exporter.Model.{Time}
use remnanode_exporter.Sink.{InsertError}
use remnanode_exporter.Consumer.Delivery.Carries.{
  IsHealthy, IsHealthyRound, Carries, trans-Carries, flush_healthy, after_read-Carries,
  run_loop-Carries,
}

module _ (db : String) (dec : Decoder) (opt : Options) where
  run_loop_last :
      (rounds : List Round) (last : Round) (s : State)
      → All IsHealthyRound rounds
      → run_loop db dec opt (rounds ++ last ∷ []) s
        ≡ run_loop db dec opt (last ∷ []) (run_loop db dec opt rounds s)
  unfolding run_loop
  run_loop_last [] last s h = refl
  run_loop_last (stop env ∷ rest) last s (h, hs) = absurd h
  run_loop_last (work claim answer env ∷ rest) last s (h, hs) = run_loop_last rest last _ hs

  abbrev IsEmpty : State → Type 0
  IsEmpty s = (s.rows ≡ []) × (s.pending ≡ [])

  report_pending_worker :
      (now : Time) (lag : Option ℕ) (s : State)
      → (report_pending db dec opt now lag s).worker ≡ s.worker
  unfolding report_pending emit
  report_pending_worker now lag s = ground arith

  report_pending-IsEmpty :
      (now : Time) (lag : Option ℕ) (s : State)
      → IsEmpty s
      → IsEmpty (report_pending db dec opt now lag s)
  report_pending-IsEmpty now lag s h = rw (report_pending_worker now lag s) h

  due_idle : (now : Time) (s : State) → is_due db dec opt true now s ≡ true
  unfolding is_due
  due_idle now s = ground arith

  settle-IsEmpty :
      (env : FlushEnv) (r : Result InsertError (Unit {0})) (t : State)
      → r ≡ ok tt
      → IsEmpty t
      → IsEmpty (settle db dec opt env (r, t))
  unfolding settle
  settle-IsEmpty env (ok u) t e h = h
  settle-IsEmpty env (err x) t e h = cc

  -- a round that reads nothing writes the buffer out
  idle-IsEmpty :
      (env : RoundEnv) (s : State)
      → IsHealthy env.flush_env
      → IsSound dec (λ m. Unit) s
      → IsEmpty (after_read db dec opt env (some 0, s))
  unfolding after_read maybe_flush
  idle-IsEmpty env s h v = elim (Bool-cases (length s.pending == 0)) [
    | inl e ↦
        let none_held = eq-nil_of_length s.pending e in
        rw e (
          report_pending-IsEmpty env.lag_check env.lag _ (
            settle-IsEmpty env.flush_env (ok tt) s refl
              (rows-eq-nil db dec opt _ s v none_held, none_held)))
    | inr e ↦
        let (k, spec) = flush_healthy db dec opt env.flush_env s h (ne-nil_of_length s.pending e) in
        rw (e, due_idle env.flush_check s)
          (report_pending-IsEmpty env.lag_check env.lag _
            (settle-IsEmpty env.flush_env _ _ k (spec.0, spec.1)))
  ]

  any_entries : (ms : List Message) → All (λ (m : Message). Unit {0}) ms
  any_entries [] = tt
  any_entries (m ∷ ms) = (tt, any_entries ms)

  any_walk : RunLaws db dec opt (λ es s t.
      All (λ (m : Message). Unit {0}) es → IsSound dec (λ m. Unit) s → IsSound dec (λ m. Unit) t)
  any_walk = IsSound-walk db dec opt (λ m. Unit)

  -- the end of a run: everything was taken out of the buffer, and nothing twice
  pub record Delivered (es : List Message) (t : State) : Type 0 where
    pub acked_ids : acks t.log ≡ map (λ (m : Message). m.id) es
    pub stored_rows : stored dec.table t.log ≡ concat_map (rows_of dec) es
    pub no_rows : t.rows ≡ []
    pub no_pending : t.pending ≡ []

  Carries-Delivered :
      (es : List Message) (now : Time) (t : State)
      → Carries db dec opt es (new_worker now) t
      → IsEmpty t
      → Delivered es t
  unfolding new_worker
  Carries-Delivered es now t c (rows, pending) = record {
    acked_ids = sym (append-nil _) ∙ (ap (λ x. acks t.log ++ x) (sym pending) ∙ c.ids);
    stored_rows =
        sym (append-nil _) ∙ (ap (λ x. stored dec.table t.log ++ x) (sym rows) ∙ c.row_list);
    no_rows = rows;
    no_pending = pending;
  }

  -- the last two stages of a run, from a state that carries `es`
  loop-Delivered :
      (es : List Message) (rounds : List Round) (env : RoundEnv) (now : Time) (s : State)
      → All IsHealthyRound rounds
      → IsHealthy env.flush_env
      → IsSound dec (λ m. Unit) s
      → Carries db dec opt es (new_worker now) s
      → Delivered
          (es ++ concat_map round_entries rounds)
          (run_loop db dec opt (rounds ++ work none timeout env ∷ []) s)
  unfolding run_loop tick read_once
  loop-Delivered es rounds env now s hs h v c =
      let u = run_loop db dec opt rounds s in
      let all = es ++ concat_map round_entries rounds in
      let v' = run_loop_walk db dec opt _ any_walk.steps rounds s (any_entries _) v in
      rw (run_loop_last rounds (work none timeout env) s hs) (
        Carries-Delivered all now _
          (rw (sym (append-nil all)) (
            trans-Carries db dec opt all [] (new_worker now) u _
              (trans-Carries db dec opt es _ (new_worker now) s u c
                (run_loop-Carries db dec opt rounds s hs))
              (after_read-Carries db dec opt env (some 0) u h)))
          (idle-IsEmpty env u h v'))

  group-Delivered :
      (recovery : List (ReadAnswer × FlushEnv)) (rounds : List Round) (env : RoundEnv) (now : Time)
      (r : Result Text (Unit {0})) (s : State)
      → r ≡ ok tt
      → All (λ (a : ReadAnswer × FlushEnv). IsHealthy a.1) recovery
      → All IsHealthyRound rounds
      → IsHealthy env.flush_env
      → IsSound dec (λ m. Unit) s
      → Carries db dec opt [] (new_worker now) s
      → Delivered
          (recovered db dec opt recovery ++ concat_map round_entries rounds)
          (after_group db dec opt recovery (rounds ++ work none timeout env ∷ []) (r, s)).1
  unfolding after_group
  group-Delivered recovery rounds env now (err x) s e hr hs h v c = cc
  group-Delivered recovery rounds env now (ok t) s e hr hs h v c =
      loop-Delivered (recovered db dec opt recovery) rounds env now _ hs h
        (recovery_walk db dec opt _ any_walk recovery s (any_entries _) v)
        (trans-Carries db dec opt [] (recovered db dec opt recovery) (new_worker now) s _ c
          (recovery-Carries db dec opt recovery s hr))

  -- While ClickHouse takes every batch and XACK succeeds, nothing is left behind: when the consumer
  -- group of a new worker exists or is created, and a read times out behind the recovery and any number
  -- of rounds, whatever these read or claimed, the worker has acknowledged the ids of exactly the
  -- entries that the recovery took in (the first stream of each answer, up to the first that is
  -- empty) and that Redis handed out in the rounds, in order and each once, has stored exactly their
  -- rows, in order, and holds nothing.
  pub run-Delivered :
      (group : Option Text) (recovery : List (ReadAnswer × FlushEnv)) (rounds : List Round)
      (env : RoundEnv) (now : Time)
      → (ensure_group db dec opt group (new_worker now)).0 ≡ ok tt
      → All (λ (a : ReadAnswer × FlushEnv). IsHealthy a.1) recovery
      → All IsHealthyRound rounds
      → IsHealthy env.flush_env
      → Delivered
          (recovered db dec opt recovery ++ concat_map round_entries rounds)
          (run db dec opt group recovery (rounds ++ work none timeout env ∷ []) (new_worker now)).1
  unfolding run
  run-Delivered group recovery rounds env now e hr hs h =
      group-Delivered recovery rounds env now _ _ e hr hs h
        (ensure_group_walk db dec opt _ any_walk group (new_worker now) tt
          (new_worker-IsSound dec (λ m. Unit) now))
        (group-Carries db dec opt group (new_worker now))
