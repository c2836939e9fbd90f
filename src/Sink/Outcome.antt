-- ===== src/Sink/Outcome.antt =====
-- What Insert leaves in ClickHouse, for each answer of the connection.
use remnanode_exporter.Prelude.{
  String, ◌≡◌, refl, ◌↔◌, inl, inr, true, List, [], ◌∷◌, append-nil, arith, eq_iff, Bool-cases, All,
  Result, ok, err,
}
use remnanode_exporter.Events.{committed, Event, Row, stored, acks}
use remnanode_exporter.Sink.{Conn, InsertError, append_all, insert}

module _ (db : String) (conn : Conn) (table : String) (cols : List String) where
  pub insert-acks : (rows : List Row) → acks (insert db conn table cols rows).1 ≡ []
  unfolding insert
  insert-acks [] = refl
  insert-acks (row ∷ rows) = ground arith

  -- the rows are stored when there is no error, and nothing is otherwise
  abbrev pub Stores : List Row → Result InsertError (Unit {0}) → List Event → Type 0
  Stores rows (ok u) events = stored table events ≡ rows
  Stores rows (err e) events = stored table events ≡ []

  stored_one : (rows : List Row) → stored table (committed db table cols rows ∷ []) ≡ rows
  stored_one rows = rw ((eq_iff table table).1 refl, append-nil)

  insert_cons-Stores :
      (row : Row) (rows : List Row)
      → Stores
          (row ∷ rows)
          (insert db conn table cols (row ∷ rows)).0
          (insert db conn table cols (row ∷ rows)).1
  unfolding insert
  insert_cons-Stores row rows = elim (Bool-cases conn.prepares) [
    | inr e ↦ rw e refl
    | inl e ↦ elim (Bool-cases (append_all conn (row ∷ rows))) [
      | inr e' ↦ rw (e', e) refl
      | inl e' ↦ elim (Bool-cases conn.sends) [
        | inr e'' ↦ rw (e', e, e'') refl
        | inl e'' ↦ rw (e', e, e'') (stored_one (row ∷ rows))
      ]
    ]
  ]

  pub insert-Stores :
      (rows : List Row)
      → Stores rows (insert db conn table cols rows).0 (insert db conn table cols rows).1
  insert-Stores [] = unfold insert in refl
  insert-Stores (row ∷ rows) = insert_cons-Stores row rows

  append_all_complete :
      (rows : List Row) → All (λ row. conn.accepts row ≡ true) rows → append_all conn rows ≡ true
  unfolding append_all
  append_all_complete [] h = refl
  append_all_complete (row ∷ rows) (e, h) = rw (e, append_all_complete rows h)

  append_all_sound :
      (rows : List Row) → append_all conn rows ≡ true → All (λ row. conn.accepts row ≡ true) rows
  unfolding append_all
  append_all_sound [] h = tt
  append_all_sound (row ∷ rows) h = ground (arith, append_all_sound rows)

  abbrev pub Answers : List Row → Type 0
  Answers rows =
      (conn.prepares ≡ true) × All (λ row. conn.accepts row ≡ true) rows × (conn.sends ≡ true)

  -- Insert of one or more rows succeeds exactly when the batch is prepared, every row is accepted
  -- and the batch is sent.
  pub insert_ok_iff :
      (row : Row) (rows : List Row)
      → ((insert db conn table cols (row ∷ rows)).0 ≡ ok tt) ↔ Answers (row ∷ rows)
  unfolding insert
  insert_ok_iff row rows = (
    λ h. (ground arith, append_all_sound (row ∷ rows) (ground arith), ground arith),
    λ (p, a, q). rw (append_all_complete (row ∷ rows) a, p, q),
  )
