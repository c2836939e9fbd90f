-- ===== src/Consumer/Bounds.antt =====
-- How many rows the worker holds, and which entries it keeps for an acknowledgement.
use remnanode_exporter.Sink.{InsertError}
use remnanode_exporter.Model.{ParseError, Time}
use remnanode_exporter.Events.{messages_read, Row, stored, acks}
use remnanode_exporter.Prelude.{
  ℕ, ◌<◌, String, ◌≡◌, refl, sym, ap, ◌∙◌, inl, inr, Bool, false, Option, some, List, [], ◌∷◌, ◌++◌,
  append-nil, map, arith, ◌==◌, Bool-cases, length, ne-nil_of_length, eq-nil_of_length, concat_map,
  Result, ok, err, concat_map-append,
}
use remnanode_exporter.Consumer.{
  drop_buffer, emit, RoundEnv, report_pending, settle, maybe_flush, consume, buffer, Message,
  is_due, FlushEnv, Options, Decoder, State, after_read,
}
use remnanode_exporter.Consumer.Delivery.{rows_of, IsSound}
use remnanode_exporter.Consumer.Flush.{FlushSpec, flush-FlushSpec}

module _ (db : String) (dec : Decoder) (opt : Options) where
  -- the buffer is below the limit when the call returned no error
  abbrev Fits : Result InsertError (Unit {0}) → State → Type 0
  Fits (ok u) t = length t.rows < opt.flush_max_rows
  Fits (err e) t = Unit

  FlushSpec-Fits :
      (env : FlushEnv) (s t : State) (r : Result InsertError (Unit {0}))
      → 0 < opt.flush_max_rows
      → FlushSpec db dec opt env s r t
      → Fits r t
  FlushSpec-Fits env s t (ok u) h spec = rw spec.0 h
  FlushSpec-Fits env s t (err e) h spec = tt

  not_due :
      (idle : Bool) (now : Time) (s : State)
      → is_due db dec opt idle now s ≡ false
      → length s.rows < opt.flush_max_rows
  unfolding is_due
  not_due idle now s h = ground arith

  map-eq-nil : (ms : List Message) → [] ≡ map (λ (m : Message). m.id) ms → ms ≡ []
  map-eq-nil [] h = refl
  map-eq-nil (m ∷ ms) h = cc

  module _ (P : Message → Type 0) where
    pub rows-eq-nil : (s : State) → IsSound dec P s → s.pending ≡ [] → s.rows ≡ []
    rows-eq-nil s h e =
        h.rows_held ∙ ap (concat_map (rows_of dec)) (map-eq-nil h.held (sym e ∙ h.pending_held))

    maybe_flush-Fits :
        (idle : Bool) (now : Time) (env : FlushEnv) (s : State)
        → 0 < opt.flush_max_rows
        → IsSound dec P s
        → Fits (maybe_flush db dec opt idle now env s).0 (maybe_flush db dec opt idle now env s).1
    unfolding maybe_flush
    maybe_flush-Fits idle now env s h v = elim (Bool-cases (length s.pending == 0)) [
      | inl e ↦ rw e (rw (rows-eq-nil s v (eq-nil_of_length s.pending e)) h)
      | inr e ↦ elim (Bool-cases (is_due db dec opt idle now s)) [
        | inl due ↦
            rw (e, due)
              (FlushSpec-Fits env s _ _ h
                (flush-FlushSpec db dec opt env s (ne-nil_of_length s.pending e)))
        | inr early ↦ rw (e, early) (not_due idle now s early)
      ]
    ]

    settle-Fits :
        (env : FlushEnv) (r : Result InsertError (Unit {0})) (s : State)
        → 0 < opt.flush_max_rows
        → Fits r s
        → length (settle db dec opt env (r, s)).rows < opt.flush_max_rows
    unfolding settle drop_buffer
    settle-Fits env (ok u) s h f = f
    settle-Fits env (err e) s h f = h

    report_pending-rows :
        (now : Time) (lag : Option ℕ) (s : State)
        → (report_pending db dec opt now lag s).rows ≡ s.rows
    unfolding report_pending emit
    report_pending-rows now lag s = ground arith

    -- Behind a read that succeeded, a worker whose buffer is that of the entries that it took in holds
    -- fewer rows than FLUSH_MAX_ROWS, if that is positive, whether or not a flush was due and whether
    -- or not it succeeded.
    pub after_read_rows-lt :
        (env : RoundEnv) (n : ℕ) (s : State)
        → 0 < opt.flush_max_rows
        → IsSound dec P s
        → length (after_read db dec opt env (some n, s)).rows < opt.flush_max_rows
    unfolding after_read
    after_read_rows-lt env n s h v = rw (report_pending-rows env.lag_check env.lag _) (
        settle-Fits env.flush_env _ _ h
          (maybe_flush-Fits (n == 0) env.flush_check env.flush_env s h v))

  -- `t` holds the rows and the id of the entry behind those of `s`, and stored nothing more.
  abbrev pub ConsumeSpec : Message → Result ParseError (List Row) → State → State → Type 0
  ConsumeSpec msg r s t =
      (t.rows ≡ s.rows ++ elim r [ ok rows ↦ rows | err e ↦ [] ])
      × (t.pending ≡ s.pending ++ msg.id ∷ [])
      × (acks t.log ≡ acks s.log)
      × (stored dec.table t.log ≡ stored dec.table s.log)

  buffer-ConsumeSpec :
      (msg : Message) (r : Result ParseError (List Row)) (s : State)
      → ConsumeSpec msg r s (buffer db dec opt msg r (emit (messages_read dec.stream ∷ []) s))
  unfolding buffer emit
  buffer-ConsumeSpec msg (ok rows) s =
      (refl, refl, simp (concat_map-append, append-nil), simp (concat_map-append, append-nil))
  buffer-ConsumeSpec msg (err e) s = (
    sym (append-nil s.rows),
    refl,
    simp (concat_map-append, append-nil),
    simp (concat_map-append, append-nil),
  )

  -- An entry that does not decode adds no row and its id is kept for the next acknowledgement; one
  -- that decodes adds its rows and its id behind those held. Neither stores or acknowledges anything
  -- by itself.
  pub consume-ConsumeSpec :
      (msg : Message) (s : State)
      → ConsumeSpec msg (dec.decode msg.values) s (consume db dec opt msg s)
  unfolding consume
  consume-ConsumeSpec msg s = buffer-ConsumeSpec msg (dec.decode msg.values) s
