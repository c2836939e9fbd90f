-- ===== src/Consumer/Walk.antt =====
-- A relation of states that the steps of a worker have is one that its loop and its runs have.
use remnanode_exporter.Consumer.{
  is_busy_group, recover_flush, run, ensure_group, after_group, recover_own_pending, go_on,
  first_stream, State, Decoder, Options, Message, FlushEnv, RoundEnv, Round, ReadAnswer, stop, work,
  timeout, failed, entries, emit, drop_buffer, consume, consume_all, consume_streams, some_fst,
  read_once, tick, claim_stale, flush, maybe_flush, settle, is_due, report_pending, after_read,
  run_loop, second,
}
use remnanode_exporter.Consumer.Entries.{taken_in, read_entries, claimed_entries, pending_entries}
use remnanode_exporter.Events.{stream_lag, group_created}
use remnanode_exporter.Model.{Time}
use remnanode_exporter.Sink.{InsertError}
use remnanode_exporter.Prelude.{
  ℕ, ◌+◌, String, inl, inr, Bool, Option, none, some, List, [], ◌∷◌, ◌++◌, append-nil, ◌==◌,
  Bool-cases, Text, length, concat_map, Result, ok, err, ◌-ℤ◌, ltb_ℤ, subst,
}

module _ (db : String) (dec : Decoder) (opt : Options) where
  -- From `s` to `t` the entries were taken in, and `R` relates the two.
  pub record StepLaws (R : List Message → State → State → Type 0) : Type 0 where
    pub same : (s : State) → R [] s s
    pub trans : (es fs : List Message) (s t u : State) → R es s t → R fs t u → R (es ++ fs) s u
    pub consumes : (msg : Message) (s : State) → R (msg ∷ []) s (consume db dec opt msg s)
    pub flushes : (env : FlushEnv) (s : State) → R [] s (flush db dec opt env s).1
    pub drops : (now : Time) (s : State) → R [] s (drop_buffer now s)
    pub reports : (n : ℕ) (s : State) → R [] s (emit (stream_lag dec.stream n ∷ []) s)

  -- the laws of a start: entries may count as taken in although they were left
  pub record RunLaws (R : List Message → State → State → Type 0) : Type 0 where
    pub steps : StepLaws R
    pub leaves : (es : List Message) (s t : State) → R [] s t → R es s t
    pub creates :
        (start : Text) (s : State) → R [] s (emit (group_created dec.stream opt.group start ∷ []) s)

  module _ (R : List Message → State → State → Type 0) (laws : StepLaws R) where
    consume_all_walk : (msgs : List Message) (s : State) → R msgs s (consume_all db dec opt msgs s)
    unfolding consume_all
    consume_all_walk [] s = laws.same s
    consume_all_walk (msg ∷ msgs) s =
        let next = consume db dec opt msg s in
        laws.trans (msg ∷ []) msgs s next _ (laws.consumes msg s) (consume_all_walk msgs next)

    settle_walk :
        (env : FlushEnv) (r : Result InsertError (Unit {0})) (s t : State)
        → R [] s t
        → R [] s (settle db dec opt env (r, t))
    unfolding settle
    settle_walk env (ok u) s t h = h
    settle_walk env (err e) s t h =
        laws.trans [] [] s t (drop_buffer env.now t) h (laws.drops env.now t)

    maybe_flush_walk :
        (idle : Bool) (now : Time) (env : FlushEnv) (s : State)
        → R [] s (maybe_flush db dec opt idle now env s).1
    unfolding maybe_flush
    maybe_flush_walk idle now env s = elim (Bool-cases (length s.pending == 0)) [
      | inl e ↦ rw e (laws.same s)
      | inr e ↦ elim (Bool-cases (is_due db dec opt idle now s)) [
        | inl due ↦ rw (e, due) (laws.flushes env s)
        | inr early ↦ rw (e, early) (laws.same s)
      ]
    ]

    lag_walk :
        (lag : Option ℕ) (s : State)
        → R [] s (elim lag [ none ↦ s | some n ↦ emit (stream_lag dec.stream n ∷ []) s ])
    lag_walk none s = laws.same s
    lag_walk (some n) s = laws.reports n s

    report_pending_walk :
        (now : Time) (lag : Option ℕ) (s : State) → R [] s (report_pending db dec opt now lag s)
    unfolding report_pending
    report_pending_walk now lag s = elim (Bool-cases (ltb_ℤ (now -ℤ s.last_flush) second)) [
      | inl e ↦ rw e (laws.same s)
      | inr e ↦ rw e (lag_walk lag s)
    ]

    after_read_walk :
        (env : RoundEnv) (o : Option ℕ) (s : State) → R [] s (after_read db dec opt env (o, s))
    unfolding after_read
    after_read_walk env none s = laws.same s
    after_read_walk env (some n) s =
        let flushed = maybe_flush db dec opt (n == 0) env.flush_check env.flush_env s in
        let settled = settle db dec opt env.flush_env flushed in
        laws.trans [] [] s settled _
          (settle_walk env.flush_env flushed.0 s flushed.1
            (maybe_flush_walk (n == 0) env.flush_check env.flush_env s))
          (report_pending_walk env.lag_check env.lag settled)

    consume_streams_walk :
        (streams : List (List Message)) (n : ℕ) (s : State)
        → R
            (concat_map (λ (msgs : List Message). msgs) streams)
            s
            (consume_streams db dec opt streams n s).1
    unfolding consume_streams
    consume_streams_walk [] n s = laws.same s
    consume_streams_walk (msgs ∷ streams) n s =
        let next = consume_all db dec opt msgs s in
        laws.trans msgs _ s next _ (consume_all_walk msgs s)
          (consume_streams_walk streams (n + length msgs) next)

    read_once_walk :
        (answer : ReadAnswer) (s : State)
        → R (read_entries answer) s (read_once db dec opt answer s).1
    unfolding read_once some_fst
    read_once_walk timeout s = laws.same s
    read_once_walk failed s = laws.same s
    read_once_walk (entries streams) s = consume_streams_walk streams 0 s

    tick_walk :
        (claim : Option (Option (List Message))) (s : State)
        → R (claimed_entries claim) s (tick db dec opt claim s)
    unfolding tick claim_stale
    tick_walk none s = laws.same s
    tick_walk (some none) s = laws.same s
    tick_walk (some (some msgs)) s = consume_all_walk msgs s

    pub run_loop_walk :
        (rounds : List Round) (s : State) → R (taken_in rounds) s (run_loop db dec opt rounds s)
    unfolding run_loop
    run_loop_walk [] s = laws.same s
    run_loop_walk (stop env ∷ rest) s = laws.flushes env s
    run_loop_walk (work claim answer env ∷ rest) s =
        let ticked = tick db dec opt claim s in
        let was_read = read_once db dec opt answer ticked in
        let next = after_read db dec opt env was_read in
        let round : R (claimed_entries claim ++ read_entries answer) s next =
          subst (λ es. R es s next) (append-nil _)
            (laws.trans _ [] s was_read.1 next
              (laws.trans (claimed_entries claim) (read_entries answer) s ticked _
                (tick_walk claim s) (read_once_walk answer ticked))
              (after_read_walk env was_read.0 was_read.1)) in
        laws.trans _ (taken_in rest) s next _ round (run_loop_walk rest next)

  module _ (R : List Message → State → State → Type 0) (laws : RunLaws R) where
    go_on_walk :
        (more : List Message) (next : State → State) (r : Result InsertError (Unit {0}))
        (s t : State) (now : Time)
        → ((u : State) → R more u (next u))
        → R [] s t
        → R more s (go_on db dec opt next (recover_flush db dec opt (r, t) now))
    unfolding go_on recover_flush
    go_on_walk more next (ok u) s t now step h = laws.steps.trans [] more s t (next t) h (step t)
    go_on_walk more next (err e) s t now step h =
        laws.leaves more s (drop_buffer now t)
          (laws.steps.trans [] [] s t _ h (laws.steps.drops now t))

    pub recovery_walk :
        (recovery : List (ReadAnswer × FlushEnv)) (s : State)
        → R (pending_entries db dec opt recovery) s (recover_own_pending db dec opt recovery s)
    unfolding recover_own_pending
    recovery_walk [] s = laws.steps.same s
    recovery_walk ((answer, env) ∷ rest) s =
        let msgs = first_stream db dec opt answer in
        let taken = consume_all db dec opt msgs s in
        let flushed = flush db dec opt env taken in
        elim (Bool-cases (length msgs == 0)) [
          | inl e ↦ rw e (laws.leaves _ s s (laws.steps.same s))
          | inr e ↦ rw e (
              laws.steps.trans msgs (pending_entries db dec opt rest) s taken _
                (consume_all_walk R laws.steps msgs s)
                (go_on_walk (pending_entries db dec opt rest) (recover_own_pending db dec opt rest)
                  flushed.0 taken flushed.1 env.now (recovery_walk rest)
                  (laws.steps.flushes env taken)))
        ]

    after_group_walk :
        (recovery : List (ReadAnswer × FlushEnv)) (rounds : List Round) (r : Result Text (Unit {0}))
        (s t : State)
        → R [] s t
        → R
            (pending_entries db dec opt recovery ++ taken_in rounds)
            s
            (after_group db dec opt recovery rounds (r, t)).1
    unfolding after_group
    after_group_walk recovery rounds (err e) s t h = laws.leaves _ s t h
    after_group_walk recovery rounds (ok u) s t h =
        let recovered = recover_own_pending db dec opt recovery t in
        laws.steps.trans (pending_entries db dec opt recovery) (taken_in rounds) s recovered _
          (laws.steps.trans [] (pending_entries db dec opt recovery) s t recovered h
            (recovery_walk recovery t))
          (run_loop_walk R laws.steps rounds recovered)

    pub ensure_group_walk :
        (group : Option Text) (s : State) → R [] s (ensure_group db dec opt group s).1
    unfolding ensure_group
    ensure_group_walk none s = laws.creates _ s
    ensure_group_walk (some message) s = elim (Bool-cases (is_busy_group message)) [
      | inl e ↦ rw e (laws.steps.same s)
      | inr e ↦ rw e (laws.steps.same s)
    ]

    pub run_walk :
        (group : Option Text) (recovery : List (ReadAnswer × FlushEnv)) (rounds : List Round)
        (s : State)
        → R
            (pending_entries db dec opt recovery ++ taken_in rounds)
            s
            (run db dec opt group recovery rounds s).1
    unfolding run
    run_walk group recovery rounds s =
        let grouped = ensure_group db dec opt group s in
        after_group_walk recovery rounds grouped.0 s grouped.1 (ensure_group_walk group s)
