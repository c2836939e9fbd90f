-- ===== src/Consumer/Flush.antt =====
-- What a flush does on each branch, and when the buffer is written out.
use remnanode_exporter.Sink.{insert, Conn, InsertError}
use remnanode_exporter.Events.{Row, acked, Event, acks, stored}
use remnanode_exporter.Prelude.{
  String, ◌≡◌, refl, ◌≢◌, Bool, true, false, List, [], ◌∷◌, ◌++◌, append-nil, if◌then◌else◌,
  length_of_ne-nil, Result, ok, err, concat_map-append,
}
use remnanode_exporter.Consumer.{
  stop, Round, run_loop, drop_buffer, emit, after_insert, Options, Decoder, State, FlushEnv, flush,
}
use remnanode_exporter.Sink.Outcome.{Stores, Answers, insert-Stores, insert-acks, insert_ok_iff}

module _ (db : String) (dec : Decoder) (opt : Options) where
  -- With no error the buffer is stored, acknowledged if XACK succeeds, and emptied; with an error
  -- nothing is stored or acknowledged, and the buffer is kept.
  abbrev pub FlushSpec : FlushEnv → State → Result InsertError (Unit {0}) → State → Type 0
  FlushSpec env s (ok u) t =
      (t.rows ≡ [])
      × (t.pending ≡ [])
      × (stored dec.table t.log ≡ stored dec.table s.log ++ s.rows)
      × (acks t.log ≡ acks s.log ++ (if env.acks_ok then s.pending else []))
  FlushSpec env s (err e) t =
      (t.worker ≡ s.worker)
      × (stored dec.table t.log ≡ stored dec.table s.log)
      × (acks t.log ≡ acks s.log)

  -- the log behind the XACK, whether it succeeds or not
  confirm_lem :
      (b : Bool) (events : List Event) (s : State)
      → acks events ≡ []
      → stored dec.table events ≡ s.rows
      → let t =
          (if b
            then emit (acked dec.stream opt.group s.pending ∷ []) (emit events s)
            else emit events s) in
        (stored dec.table t.log ≡ stored dec.table s.log ++ s.rows)
        × (acks t.log ≡ acks s.log ++ (if b then s.pending else []))
  unfolding emit
  confirm_lem false events s a st = (simp (concat_map-append, st), simp (concat_map-append, a))
  confirm_lem true events s a st =
      (simp (concat_map-append, st, append-nil), simp (concat_map-append, a, append-nil))

  after_insert_lem :
      (env : FlushEnv) (r : Result InsertError (Unit {0})) (events : List Event) (s : State)
      → acks events ≡ []
      → Stores db env.conn dec.table dec.columns s.rows r events
      → FlushSpec env s
          (after_insert db dec opt env (r, events) s).0
          (after_insert db dec opt env (r, events) s).1
  unfolding after_insert emit drop_buffer
  after_insert_lem env (err e) events s a st =
      (refl, simp (concat_map-append, st, append-nil), simp (concat_map-append, a, append-nil))
  after_insert_lem env (ok u) events s a st =
      let (e, e') = confirm_lem env.acks_ok events s a st in (refl, refl, e, e')

  -- A flush of a buffer that holds an entry: with no error the rows of the buffer are stored behind
  -- those stored before, its entries are acknowledged exactly when XACK succeeds, and the buffer is
  -- empty; with an error nothing is stored or acknowledged and the buffer is unchanged.
  pub flush-FlushSpec :
      (env : FlushEnv) (s : State)
      → s.pending ≢ []
      → FlushSpec env s (flush db dec opt env s).0 (flush db dec opt env s).1
  unfolding flush
  flush-FlushSpec env s h = rw (length_of_ne-nil s.pending h) (
      after_insert_lem env _ _ s (insert-acks db env.conn dec.table dec.columns s.rows)
        (insert-Stores db env.conn dec.table dec.columns s.rows))

  pub insert_accepted :
      (conn : Conn) (rows : List Row)
      → Answers db conn dec.table dec.columns rows
      → (insert db conn dec.table dec.columns rows).0 ≡ ok tt
  insert_accepted conn [] a = unfold insert in refl
  insert_accepted conn (row ∷ rows) a = (insert_ok_iff db conn dec.table dec.columns row rows).1 a

  after_insert_ok :
      (env : FlushEnv) (r : Result InsertError (Unit {0})) (events : List Event) (s : State)
      → r ≡ ok tt
      → (after_insert db dec opt env (r, events) s).0 ≡ ok tt
  unfolding after_insert
  after_insert_ok env (ok u) events s e = refl
  after_insert_ok env (err x) events s e = cc

  pub flush_ok :
      (env : FlushEnv) (s : State)
      → s.pending ≢ []
      → Answers db env.conn dec.table dec.columns s.rows
      → (flush db dec opt env s).0 ≡ ok tt
  unfolding flush
  flush_ok env s h a =
      rw (length_of_ne-nil s.pending h)
        (after_insert_ok env _ _ s (insert_accepted env.conn s.rows a))

  pub FlushSpec-of_ok :
      (env : FlushEnv) (s t : State) (r : Result InsertError (Unit {0}))
      → r ≡ ok tt
      → FlushSpec env s r t
      → FlushSpec env s (ok tt) t
  FlushSpec-of_ok env s t (ok u) e h = h
  FlushSpec-of_ok env s t (err x) e h = cc

  -- When the worker is stopped while it holds entries, and ClickHouse
  -- prepares the batch, accepts each row and takes it, then the rows of the buffer are stored, its
  -- entries are acknowledged if XACK succeeds, and the buffer is empty.
  pub shutdown_saves :
      (env : FlushEnv) (rest : List Round) (s : State)
      → s.pending ≢ []
      → Answers db env.conn dec.table dec.columns s.rows
      → FlushSpec env s (ok tt) (run_loop db dec opt (stop env ∷ rest) s)
  unfolding run_loop
  shutdown_saves env rest s h a =
      FlushSpec-of_ok env s _ _ (flush_ok env s h a) (flush-FlushSpec env s h)
