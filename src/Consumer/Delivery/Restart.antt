-- ===== src/Consumer/Delivery/Restart.antt =====
-- What the start of a worker carries over: its group, and the entries that it read before a restart.
use remnanode_exporter.Model.{Time}
use remnanode_exporter.Prelude.{
  String, ◌≡◌, refl, inl, inr, Option, none, some, List, [], ◌∷◌, ◌++◌, ◌==◌, if◌then◌else◌,
  Bool-cases, Text, length, ne-nil_of_length, All, Result, ok, err,
}
use remnanode_exporter.Consumer.{
  Decoder, Options, State, Message, FlushEnv, ReadAnswer, consume_all, flush, recover_flush, go_on,
  first_stream, recover_own_pending, ensure_group, is_busy_group,
}
use remnanode_exporter.Consumer.Delivery.Carries.{
  IsHealthy, Carries, same-Carries, trans-Carries, consume_all-Carries, flush_healthy,
  FlushSpec-Carries, emit-Carries,
}
use remnanode_exporter.Sink.{InsertError}

module _ (db : String) (dec : Decoder) (opt : Options) where
  -- the entries that recoverOwnPending takes in: up to the first answer without one
  abbrev pub recovered : List (ReadAnswer × FlushEnv) → List Message
  recovered [] = []
  recovered ((answer, env) ∷ rest) =
      let msgs = first_stream db dec opt answer in
      let more = recovered rest in if length msgs == 0 then [] else msgs ++ more

  flush-Carries :
      (env : FlushEnv) (s : State)
      → IsHealthy env
      → ((flush db dec opt env s).0 ≡ ok tt) × Carries db dec opt [] s (flush db dec opt env s).1
  unfolding flush
  flush-Carries env s h = elim (Bool-cases (length s.pending == 0)) [
    | inl e ↦ rw e (refl, same-Carries db dec opt s)
    | inr e ↦
        let (k, spec) = flush_healthy db dec opt env s h (ne-nil_of_length s.pending e) in
        (k, FlushSpec-Carries db dec opt env s _ h spec)
  ]

  go_on-Carries :
      (es : List Message) (next : State → State) (now : Time) (s : State)
      (r : Result InsertError (Unit {0})) (t : State)
      → ((u : State) → Carries db dec opt es u (next u))
      → r ≡ ok tt
      → Carries db dec opt [] s t
      → Carries db dec opt es s (go_on db dec opt next (recover_flush db dec opt (r, t) now))
  unfolding go_on recover_flush
  go_on-Carries es next now s (ok u) t step e h =
      trans-Carries db dec opt [] es s t (next t) h (step t)
  go_on-Carries es next now s (err x) t step e h = cc

  pub recovery-Carries :
      (recovery : List (ReadAnswer × FlushEnv)) (s : State)
      → All (λ (r : ReadAnswer × FlushEnv). IsHealthy r.1) recovery
      → Carries db dec opt (recovered recovery) s (recover_own_pending db dec opt recovery s)
  unfolding recover_own_pending
  recovery-Carries [] s h = same-Carries db dec opt s
  recovery-Carries ((answer, env) ∷ rest) s (h, hs) =
      let msgs = first_stream db dec opt answer in
      let read = consume_all db dec opt msgs s in
      let (k, flushed) = flush-Carries env read h in
      elim (Bool-cases (length msgs == 0)) [
        | inl e ↦ rw e (same-Carries db dec opt s)
        | inr e ↦ rw e (
            trans-Carries db dec opt msgs (recovered rest) s read _
              (consume_all-Carries db dec opt msgs s)
              (go_on-Carries (recovered rest) (recover_own_pending db dec opt rest) env.now read _ _
                (λ u. recovery-Carries rest u hs) k flushed))
      ]

  pub group-Carries :
      (answer : Option Text) (s : State)
      → Carries db dec opt [] s (ensure_group db dec opt answer s).1
  unfolding ensure_group
  group-Carries none s = emit-Carries db dec opt _ s refl refl
  group-Carries (some message) s = elim (Bool-cases (is_busy_group message)) [
    | inl e ↦ rw e (same-Carries db dec opt s)
    | inr e ↦ rw e (same-Carries db dec opt s)
  ]
