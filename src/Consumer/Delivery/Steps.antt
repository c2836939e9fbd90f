-- ===== src/Consumer/Delivery/Steps.antt =====
-- Each operation of the worker keeps the buffer and the acknowledgements sound.
use remnanode_exporter.Model.{Time, ParseError}
use remnanode_exporter.Sink.{InsertError}
use remnanode_exporter.Sink.Outcome.{insert-Stores, insert-acks, Stores}
use remnanode_exporter.Events.{
  acked, messages_read, messages_failed, Row, Event, stored_by, stored, acks, acked_by,
}
use remnanode_exporter.Consumer.{
  Decoder, flush, FlushEnv, after_insert, consume, buffer, drop_buffer, emit, State, Message,
  Options,
}
use remnanode_exporter.Prelude.{
  String, ◌≡◌, refl, inl, inr, Bool, true, false, List, [], ◌∷◌, ◌++◌, append-nil, ◌==◌,
  if◌then◌else◌, Bool-cases, length, All, All-append, Result, ok, err, map-append,
}
use remnanode_exporter.Consumer.Delivery.{
  held-IsAccounted, IsAccounted, concat_map-append, IsSound, IsAccounted-append, rows_of,
}

module _ (db : String) (dec : Decoder) (opt : Options) (P : Message → Type 0) where
  abbrev pub Sound : State → Type 0
  Sound = IsSound dec P

  acks-append : (log events : List Event) → acks (log ++ events) ≡ acks log ++ acks events
  acks-append log events = concat_map-append acked_by log events

  -- events that acknowledge nothing
  pub emit-IsSound :
      (events : List Event) (s : State) → acks events ≡ [] → Sound s → Sound (emit events s)
  unfolding emit
  emit-IsSound events s e h = record {
    held = h.held;
    held_hold = h.held_hold;
    pending_held = h.pending_held;
    rows_held = h.rows_held;
    accounted =
        rw (acks-append s.log events, e, append-nil)
          (IsAccounted-append dec P s.log events (acks s.log) h.accounted);
  }

  pub drop_buffer-IsSound : (now : Time) (s : State) → Sound s → Sound (drop_buffer now s)
  unfolding drop_buffer
  drop_buffer-IsSound now s h = record {
    held = [];
    held_hold = tt;
    pending_held = refl;
    rows_held = refl;
    accounted = h.accounted;
  }

  buffer-IsSound :
      (msg : Message) (r : Result ParseError (List Row)) (s : State)
      → dec.decode msg.values ≡ r
      → P msg
      → Sound s
      → Sound (buffer db dec opt msg r s)
  unfolding buffer emit rows_of
  buffer-IsSound msg (err e) s d p h = record {
    held = h.held ++ msg ∷ [];
    held_hold = All-append P h.held (msg ∷ []) h.held_hold (p, tt);
    pending_held = rw (h.pending_held, map-append);
    rows_held = simp (concat_map-append, d, append-nil) h.rows_held;
    accounted =
        rw (acks-append s.log (messages_failed dec.stream ∷ []), append-nil (acks s.log))
          (IsAccounted-append dec P s.log _ (acks s.log) h.accounted);
  }
  buffer-IsSound msg (ok rows) s d p h = record {
    held = h.held ++ msg ∷ [];
    held_hold = All-append P h.held (msg ∷ []) h.held_hold (p, tt);
    pending_held = rw (h.pending_held, map-append);
    rows_held = rw (concat_map-append (rows_of dec) h.held (msg ∷ []), d, append-nil, h.rows_held);
    accounted = h.accounted;
  }

  pub consume-IsSound :
      (msg : Message) (s : State) → P msg → Sound s → Sound (consume db dec opt msg s)
  unfolding consume
  consume-IsSound msg s p h =
      buffer-IsSound msg (dec.decode msg.values) _ refl p
        (emit-IsSound (messages_read dec.stream ∷ []) s refl h)

  -- an acknowledgement of the buffer, once its rows are stored
  ack-IsSound :
      (b : Bool) (s : State)
      → All (IsAccounted dec P s.log) s.pending
      → Sound s
      → Sound (if b then emit (acked dec.stream opt.group s.pending ∷ []) s else s)
  unfolding emit
  ack-IsSound false s a h = h
  ack-IsSound true s a h =
      let e : acks (acked dec.stream opt.group s.pending ∷ []) ≡ s.pending = append-nil s.pending in
      record {
        held = h.held;
        held_hold = h.held_hold;
        pending_held = h.pending_held;
        rows_held = h.rows_held;
        accounted =
            rw (acks-append s.log (acked dec.stream opt.group s.pending ∷ []), e)
              (All-append (IsAccounted dec P _) (acks s.log) s.pending
                (IsAccounted-append dec P s.log _ (acks s.log) h.accounted)
                (IsAccounted-append dec P s.log _ s.pending a));
      }

  -- what was buffered is stored behind the insert
  pending-IsAccounted :
      (events : List Event) (s : State)
      → stored dec.table events ≡ s.rows
      → Sound s
      → All (IsAccounted dec P (s.log ++ events)) s.pending
  pending-IsAccounted events s e h = rw h.pending_held (
      held-IsAccounted dec P (s.log ++ events) (stored dec.table s.log) [] h.held h.held_hold (
        rw (concat_map-append (stored_by dec.table) s.log events, e, h.rows_held, append-nil) refl))

  after_insert-IsSound :
      (env : FlushEnv) (r : Result InsertError (Unit {0})) (events : List Event) (s : State)
      → acks events ≡ []
      → Stores db env.conn dec.table dec.columns s.rows r events
      → Sound s
      → Sound (after_insert db dec opt env (r, events) s).1
  unfolding after_insert
  after_insert-IsSound env (err e) events s a st h = emit-IsSound events s a h
  after_insert-IsSound env (ok u) events s a st h = drop_buffer-IsSound env.now _ (
      ack-IsSound env.acks_ok (emit events s) (unfold emit in pending-IsAccounted events s st h)
        (emit-IsSound events s a h))

  pub flush-IsSound : (env : FlushEnv) (s : State) → Sound s → Sound (flush db dec opt env s).1
  unfolding flush
  flush-IsSound env s h = elim (Bool-cases (length s.pending == 0)) [
    | inl e ↦ rw e h
    | inr e ↦ rw e (
        after_insert-IsSound env _ _ s (insert-acks db env.conn dec.table dec.columns s.rows)
          (insert-Stores db env.conn dec.table dec.columns s.rows) h)
  ]
