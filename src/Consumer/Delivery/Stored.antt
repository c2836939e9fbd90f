-- ===== src/Consumer/Delivery/Stored.antt =====
-- What a run stores comes from the entries that Redis handed out, and in their order.
use mathlib.Core.List.Sublist
use mathlib.Core.List.{Sublist, sublist-append_left}
use remnanode_exporter.Consumer.{
  run, new_worker, State, Decoder, Options, Message, FlushEnv, Round, ReadAnswer, emit, drop_buffer,
  consume, buffer, after_insert, flush,
}
use remnanode_exporter.Consumer.Delivery.{rows_of, row_or_none}
use remnanode_exporter.Consumer.Entries.{pending_entries, taken_in}
use remnanode_exporter.Events.{
  group_created, stream_lag, messages_read, Event, Row, stored, stored_by,
}
use remnanode_exporter.Model.{ParseError, Time}
use remnanode_exporter.Sink.{InsertError}
use remnanode_exporter.Sink.Outcome.{Stores, insert-Stores}
use remnanode_exporter.Consumer.Walk.{RunLaws, run_walk}
use remnanode_exporter.Prelude.{
  String, ◌≡◌, refl, sym, ◌∙◌, inl, inr, Option, List, [], ◌∷◌, ◌++◌, append_assoc, append-nil,
  ◌==◌, Bool-cases, Text, length, concat_map, Result, ok, err, concat_map-append,
}

module _ (db : String) (dec : Decoder) (opt : Options) where
  -- What is stored and what waits are the rows of some of the entries seen, in their order.
  pub record Within (seen : List Message) (s : State) : Type 0 where
    pub kept : List Message
    pub held : List Message
    pub rows_kept : stored dec.table s.log ≡ concat_map (rows_of dec) kept
    pub rows_held : s.rows ≡ concat_map (rows_of dec) held
    pub order : Sublist (kept ++ held) seen

  more-Within : (seen more : List Message) (s : State) → Within seen s → Within (seen ++ more) s
  more-Within seen more s h = record {
    kept = h.kept;
    held = h.held;
    rows_kept = h.rows_kept;
    rows_held = h.rows_held;
    order = Sublist.trans h.order (sublist-append_left seen more);
  }

  -- the buffer and the stored rows alone matter
  same-Within :
      (seen : List Message) (s t : State)
      → stored dec.table t.log ≡ stored dec.table s.log
      → t.rows ≡ s.rows
      → Within seen s
      → Within seen t
  same-Within seen s t e r h = record {
    kept = h.kept;
    held = h.held;
    rows_kept = e ∙ h.rows_kept;
    rows_held = r ∙ h.rows_held;
    order = h.order;
  }

  emit-Within :
      (seen : List Message) (events : List Event) (s : State)
      → stored dec.table events ≡ []
      → Within seen s
      → Within seen (emit events s)
  unfolding emit
  emit-Within seen events s e h =
      same-Within seen s _ (simp (concat_map-append, e, append-nil)) refl h

  drop-Within :
      (seen : List Message) (now : Time) (s : State)
      → Within seen s
      → Within seen (drop_buffer now s)
  unfolding drop_buffer
  drop-Within seen now s h = record {
    kept = h.kept;
    held = [];
    rows_kept = h.rows_kept;
    rows_held = refl;
    order = rw (append-nil h.kept) (Sublist.trans (sublist-append_left h.kept h.held) h.order);
  }

  held_more :
      (held : List Message) (msg : Message) (rows : List Row)
      → row_or_none dec (dec.decode msg.values) ≡ rows
      → concat_map (rows_of dec) (held ++ msg ∷ []) ≡ concat_map (rows_of dec) held ++ rows
  unfolding rows_of
  held_more held msg rows e =
      rw (concat_map-append (rows_of dec) held (msg ∷ []), e, append-nil) refl

  one_more :
      (kept held seen : List Message) (msg : Message)
      → Sublist (kept ++ held) seen
      → Sublist (kept ++ (held ++ msg ∷ [])) (seen ++ msg ∷ [])
  one_more kept held seen msg h =
      rw (sym (append_assoc kept held (msg ∷ []))) (Sublist.append h (Sublist.refl (msg ∷ [])))

  buffer-Within :
      (seen : List Message) (msg : Message) (r : Result ParseError (List Row)) (s : State)
      → dec.decode msg.values ≡ r
      → Within seen s
      → Within (seen ++ msg ∷ []) (buffer db dec opt msg r s)
  unfolding buffer emit row_or_none
  buffer-Within seen msg (ok rows) s d h = record {
    kept = h.kept;
    held = h.held ++ msg ∷ [];
    rows_kept = h.rows_kept;
    rows_held = rw (held_more h.held msg rows (rw d refl), h.rows_held) refl;
    order = one_more h.kept h.held seen msg h.order;
  }
  buffer-Within seen msg (err e) s d h = record {
    kept = h.kept;
    held = h.held ++ msg ∷ [];
    rows_kept = simp (concat_map-append, append-nil) h.rows_kept;
    rows_held = rw (held_more h.held msg [] (rw d refl), append-nil) h.rows_held;
    order = one_more h.kept h.held seen msg h.order;
  }

  consume-Within :
      (msg : Message) (seen : List Message) (s : State)
      → Within seen s
      → Within (seen ++ msg ∷ []) (consume db dec opt msg s)
  unfolding consume
  consume-Within msg seen s h =
      buffer-Within seen msg (dec.decode msg.values) _ refl
        (emit-Within seen (messages_read dec.stream ∷ []) s refl h)

  -- what waited is stored
  moved-Within :
      (seen : List Message) (s t : State) (h : Within seen s)
      → stored dec.table t.log ≡ concat_map (rows_of dec) (h.kept ++ h.held)
      → t.rows ≡ []
      → Within seen t
  moved-Within seen s t h e r = record {
    kept = h.kept ++ h.held;
    held = [];
    rows_kept = e;
    rows_held = r;
    order = rw (append-nil (h.kept ++ h.held)) h.order;
  }

  after_insert-Within :
      (seen : List Message) (env : FlushEnv) (r : Result InsertError (Unit {0}))
      (events : List Event) (s : State)
      → Stores db env.conn dec.table dec.columns s.rows r events
      → Within seen s
      → Within seen (after_insert db dec opt env (r, events) s).1
  unfolding after_insert emit drop_buffer
  after_insert-Within seen env (err e) events s st h =
      same-Within seen s _ (simp (concat_map-append, st, append-nil)) refl h
  after_insert-Within seen env (ok u) events s st h =
      let all : stored dec.table (s.log ++ events) ≡ concat_map (rows_of dec) (h.kept ++ h.held) =
        simp (concat_map-append, st, h.rows_kept, h.rows_held) in
      elim (Bool-cases env.acks_ok) [
        | inl e ↦ rw e (
            moved-Within seen s _ h
              (concat_map-append (stored_by dec.table) (s.log ++ events) _ ∙ (append-nil _ ∙ all))
              refl)
        | inr e ↦ rw e (moved-Within seen s _ h all refl)
      ]

  flush-Within :
      (seen : List Message) (env : FlushEnv) (s : State)
      → Within seen s
      → Within seen (flush db dec opt env s).1
  unfolding flush
  flush-Within seen env s h = elim (Bool-cases (length s.pending == 0)) [
    | inl e ↦ rw e h
    | inr e ↦ rw e (
        after_insert-Within seen env _ _ s (insert-Stores db env.conn dec.table dec.columns s.rows)
          h)
  ]

  walk :
      RunLaws db dec opt (λ es s t. (seen : List Message) → Within seen s → Within (seen ++ es) t)
  walk = record {
    steps = record {
      same = λ s seen h. rw (append-nil seen) h;
      trans =
          λ es fs s t u f g seen h. rw (sym (append_assoc seen es fs)) (g (seen ++ es) (f seen h));
      consumes = λ msg s seen h. consume-Within msg seen s h;
      flushes = λ env s seen h. rw (append-nil seen) (flush-Within seen env s h);
      drops = λ now s seen h. rw (append-nil seen) (drop-Within seen now s h);
      reports = λ n s seen h.
          rw (append-nil seen) (emit-Within seen (stream_lag dec.stream n ∷ []) s refl h);
    };
    leaves = λ es s t f seen h. more-Within seen es t (rw (append-nil seen) at (f seen h));
    creates = λ start s seen h.
        rw (append-nil seen)
          (emit-Within seen (group_created dec.stream opt.group start ∷ []) s refl h);
  }

  new_worker-Within : (now : Time) → Within [] (new_worker now)
  unfolding new_worker
  new_worker-Within now = record {
    kept = [];
    held = [];
    rows_kept = refl;
    rows_held = refl;
    order = Sublist.refl [];
  }

  -- Nothing is made up, moved or stored more often than it was handed out: in any run of a new worker,
  -- whatever Redis, ClickHouse and the clock do, what stands in the decoder's table is exactly the rows
  -- of some of the entries that Redis handed to the recovery and to the loop until it was stopped,
  -- each entry at most once for each time that it was handed out, and in that order.
  pub run-StoresSublist :
      (now : Time) (group : Option Text) (recovery : List (ReadAnswer × FlushEnv))
      (rounds : List Round)
      → (kept : List Message) × (stored dec.table
            (run db dec opt group recovery rounds (new_worker now)).1.log
          ≡ concat_map (rows_of dec) kept)
        × Sublist kept (pending_entries db dec opt recovery ++ taken_in rounds)
  run-StoresSublist now group recovery rounds =
      let h =
        run_walk db dec opt _ walk group recovery rounds (new_worker now) []
          (new_worker-Within now) in
      (h.kept, h.rows_kept, Sublist.trans (sublist-append_left h.kept h.held) h.order)
