-- ===== src/Dict/Paging.antt =====
-- The fuel of the paging loops is enough, and what they collect.
use remnanode_exporter.Sink.Outcome.{insert-Stores, Stores, Answers}
use remnanode_exporter.Sink.{Conn}
use remnanode_exporter.Events.{Event, stored, Row}
use remnanode_exporter.Model.{Time}
use remnanode_exporter.Panel.{StreamUser, Env}
use remnanode_exporter.Prelude.{
  ℕ, zero, suc, ◌+◌, ◌≤◌, ◌<◌, String, ◌≡◌, refl, ap, ◌∙◌, ◌≢◌, inl, inr, Bool, true, false, none,
  some, List, [], ◌∷◌, ◌++◌, append_assoc, append-nil, map, arith, ltb, ◌==◌, if◌then◌else◌,
  Bool-cases, Text, codes, text_eq, text_eq_iff, length, Result, ok, err, concat_map-append,
  map-append,
}
use remnanode_exporter.Sink.{InsertError, insert}
use remnanode_exporter.Sink.Outcome.{insert_ok_iff}
use remnanode_exporter.Dict.{
  decoded, get_json, response, users_path, users_page, next_of, UsersResponse, fetch_users_page,
  emit, store_rows, store_result, sized, users_fuel, user_columns, table_users, Syncer, sync_users,
  not_terminated, api, SyncError, ApiError, user_row, out_of_fuel, UsersPanel, users_loop,
}

abbrev row_for : Env → Time → StreamUser → Row
row_for env now u = user_row env u now

sized_ne :
    (table : String) (n : ℕ) (r : Result InsertError (Unit {0})) (events : List Event) (s : Syncer)
    → (sized table n (r, events) s).0 ≢ err out_of_fuel
unfolding sized
sized_ne table n (ok u) events s = λ z. cc
sized_ne table n (err e) events s = λ z. cc

pub store_result_ne :
    (db : String) (conn : Conn) (table : String) (cols : List String)
    (r : Result SyncError (List Row)) (s : Syncer)
    → r ≢ err out_of_fuel
    → (store_result db conn table cols r s).0 ≢ err out_of_fuel
unfolding store_result store_rows
store_result_ne db conn table cols (err e) s h =
    λ z. let same : e ≡ out_of_fuel = cc in h (ap (λ x. err x) same)
store_result_ne db conn table cols (ok []) s h = λ z. cc
store_result_ne db conn table cols (ok (row ∷ rows)) s h =
    let some_rows : (length (row ∷ rows) == 0) ≡ false = ground arith in
    let inserted = insert db conn table cols (row ∷ rows) in
    rw some_rows (sized_ne table (length (row ∷ rows)) inserted.0 inserted.1 s)

sized_complete :
    (db : String) (conn : Conn) (table : String) (cols : List String) (rows : List Row) (n : ℕ)
    (r : Result InsertError (Unit {0})) (events : List Event) (s : Syncer)
    → r ≡ ok tt
    → Stores db conn table cols rows r events
    → let t = sized table n (r, events) s in
      (t.0 ≡ ok tt) × (stored table t.1.log ≡ stored table s.log ++ rows)
unfolding sized emit
sized_complete db conn table cols rows n (ok u) events s e st =
    (refl, simp (concat_map-append, append-nil, st))
sized_complete db conn table cols rows n (err x) events s e st = cc

pub store_result_complete :
    (db : String) (conn : Conn) (table : String) (cols : List String) (row : Row) (rows : List Row)
    (s : Syncer)
    → Answers db conn table cols (row ∷ rows)
    → let t = store_result db conn table cols (ok (row ∷ rows)) s in
      (t.0 ≡ ok tt) × (stored table t.1.log ≡ stored table s.log ++ row ∷ rows)
unfolding store_result store_rows
store_result_complete db conn table cols row rows s a =
    let some_rows : (length (row ∷ rows) == 0) ≡ false = ground arith in
    let inserted = insert db conn table cols (row ∷ rows) in
    rw some_rows (
      sized_complete db conn table cols (row ∷ rows) (length (row ∷ rows)) inserted.0 inserted.1 s
        ((insert_ok_iff db conn table cols row rows).1 a)
        (insert-Stores db conn table cols (row ∷ rows)))

module _ (panel : UsersPanel) where
  -- the page is the last one: it says so, or it names no next cursor
  pub data IsLast (r : UsersResponse) : Type 0 where
    no_more : r.has_more ≡ false → IsLast r
    no_cursor : r.next_cursor ≡ none → IsLast r
    empty_cursor : r.next_cursor ≡ some [] → IsLast r

  -- The panel serves these users in that many pages, from this request and this path on: each page
  -- answers, and each but the last one says that there are more and names the cursor to ask with next.
  pub data Serves : ℕ → ℕ → Text → List StreamUser → Type 0 where
    last :
        {page : ℕ} {path : Text} (r : UsersResponse)
        → panel page path ≡ response 200 (some r)
        → IsLast r
        → Serves 1 page path r.users
    more :
        {n page : ℕ} {path : Text} {us : List StreamUser} (r : UsersResponse) (next : Text)
        → panel page path ≡ response 200 (some r)
        → r.has_more ≡ true
        → r.next_cursor ≡ some next
        → next ≢ []
        → Serves n (page + 1) (codes "/api/users/stream?size=1000&cursor=" ++ next) us
        → Serves (suc n) page path (r.users ++ us)

  Serves-positive :
      {n page : ℕ} {path : Text} {us : List StreamUser} → Serves n page path us → 0 < n
  Serves-positive (last r e l) = omega arith
  Serves-positive (more r next e m c z h) = omega arith

  IsLast-next_of : (r : UsersResponse) → IsLast r → next_of r.has_more r.next_cursor ≡ []
  unfolding next_of
  IsLast-next_of r (no_more e) = rw e refl
  IsLast-next_of r (no_cursor e) = elim (Bool-cases r.has_more) [
    | inl m ↦ rw (e, m) refl
    | inr m ↦ rw m refl
  ]
  IsLast-next_of r (empty_cursor e) = elim (Bool-cases r.has_more) [
    | inl m ↦ rw (e, m) refl
    | inr m ↦ rw m refl
  ]

  answered_page :
      (page : ℕ) (cursor : Text) (r : UsersResponse)
      → panel page (users_path cursor) ≡ response 200 (some r)
      → fetch_users_page panel page cursor ≡ ok (r.users, next_of r.has_more r.next_cursor)
  unfolding fetch_users_page users_page get_json decoded
  answered_page page cursor r e = rw e refl

  last_page :
      (page : ℕ) (cursor : Text) (r : UsersResponse)
      → panel page (users_path cursor) ≡ response 200 (some r)
      → IsLast r
      → fetch_users_page panel page cursor ≡ ok (r.users, [])
  last_page page cursor r e l =
      answered_page page cursor r e ∙ ap (λ c. ok (r.users, c)) (IsLast-next_of r l)

  next_page :
      (page : ℕ) (cursor next : Text) (r : UsersResponse)
      → panel page (users_path cursor) ≡ response 200 (some r)
      → r.has_more ≡ true
      → r.next_cursor ≡ some next
      → fetch_users_page panel page cursor ≡ ok (r.users, next)
  next_page page cursor next r e m c =
      answered_page page cursor r e ∙ unfold next_of in rw (m, c) refl

  nonempty : (next : Text) → next ≢ [] → text_eq next [] ≡ false
  nonempty next z = ground (arith, text_eq_iff next [])

  next_path :
      (next : Text)
      → next ≢ []
      → users_path next ≡ codes "/api/users/stream?size=1000&cursor=" ++ next
  unfolding users_path
  next_path next z = rw (nonempty next z) refl

  answer_ne :
      {A B : Type 0} (x : Result ApiError B) (f : B → Result SyncError A)
      → ((r : B) → f r ≢ err out_of_fuel)
      → elim x [ ok r ↦ f r | err e ↦ err (api e) ] ≢ err out_of_fuel
  answer_ne (ok r) f h = h r
  answer_ne (err e) f h = λ z. cc

  go_on_ne :
      {A : Type 0} (a b : Bool) (x : A) (rest : Result SyncError A)
      → (b ≡ false → rest ≢ err out_of_fuel)
      → (if a then ok x else if b then err not_terminated else rest) ≢ err out_of_fuel
  go_on_ne true b x rest h = λ z. cc
  go_on_ne false true x rest h = λ z. cc
  go_on_ne false false x rest h = h refl

  module _ (env : Env) (now : Time) where
    users_loop_complete :
        (fuel n page : ℕ) (cursor path : Text) (us : List StreamUser) (rows : List Row)
        → users_path cursor ≡ path
        → Serves n page path us
        → n ≤ fuel
        → page + n ≤ 10002
        → users_loop env panel now fuel page cursor rows ≡ ok (rows ++ map (row_for env now) us)
    unfolding users_loop
    users_loop_complete zero n page cursor path us rows at h f p =
        absurd (omega (arith, Serves-positive h))
    users_loop_complete (suc fuel) _ page cursor _ _ rows at (last r e l) f p =
        rw (last_page page cursor r (ap (panel page) at ∙ e) l, users_loop) refl
    users_loop_complete (suc fuel) _ page cursor _ _ rows at
          (more {n = n} {us = us} r next e m c z h) f p =
        let early : ltb 10000 page ≡ false = ground (arith, Serves-positive h) in
        rw
          (
            next_page page cursor next r (ap (panel page) at ∙ e) m c,
            users_loop,
            nonempty next z,
            early,
          )
          (users_loop_complete fuel n (page + 1) next _ us (rows ++ map (row_for env now) r.users)
              (next_path next z) h (omega arith) (omega arith)
            ∙ simp (map-append, append_assoc))

    users_more :
        (fuel page : ℕ) (cursor : Text) (rows : List Row)
        → 10002 ≤ fuel + page
        → page ≤ 10001
        → users_loop env panel now fuel page cursor rows ≢ err out_of_fuel
    unfolding users_loop
    users_more zero page cursor rows f p = absurd (omega arith)
    users_more (suc fuel) page cursor rows f p =
        answer_ne (fetch_users_page panel page cursor) _ (λ (users, next).
          go_on_ne (text_eq next []) (ltb 10000 page) (rows ++ map (row_for env now) users) _ (λ z.
            users_more fuel (page + 1) next (rows ++ map (row_for env now) users) (omega arith)
              (ground arith)))

    -- The loop of syncUsers ends: whatever cursors the panel serves, the 10002 rounds that the model
    -- allows it are never used up.
    pub sync_users-ne-out_of_fuel :
        (db : String) (conn : Conn) (s : Syncer)
        → (sync_users db conn env panel now s).0 ≢ err out_of_fuel
    unfolding sync_users
    sync_users-ne-out_of_fuel db conn s =
        store_result_ne db conn table_users user_columns _ s
          (users_more users_fuel 0 [] [] (omega arith) (omega arith))

    -- When the panel serves one or more users in at most 10002 pages, each asked for with the cursor of
    -- the page before it and answered with the status 200, and ClickHouse prepares the
    -- batch, accepts every row and takes it, then syncUsers returns no error and stores in dim_users
    -- the row of every user of every page, in the order they were served, and nothing else.
    pub sync_users_complete :
        (db : String) (conn : Conn) (s : Syncer) (n : ℕ) (u : StreamUser) (us : List StreamUser)
        → Serves n 0 (codes "/api/users/stream?size=1000") (u ∷ us)
        → n ≤ 10002
        → Answers db conn table_users user_columns (map (row_for env now) (u ∷ us))
        → let r = sync_users db conn env panel now s in
          (r.0 ≡ ok tt)
          × (stored table_users r.1.log
              ≡ stored table_users s.log ++ map (row_for env now) (u ∷ us))
    unfolding sync_users
    sync_users_complete db conn s n u us h le a =
        rw
          (users_loop_complete users_fuel n 0 [] (codes "/api/users/stream?size=1000") (u ∷ us) []
            (unfold users_path in refl) h le (omega (arith, le)))
          (store_result_complete db conn table_users user_columns (row_for env now u)
            (map (row_for env now) us) s a)
