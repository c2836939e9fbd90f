-- ===== src/Dict/Refresh/Effects.antt =====
-- What the parts of syncAll add to each table, and what they leave alone.
use remnanode_exporter.Prelude.{
  ℕ, String, ◌≡◌, refl, sym, ◌∙◌, inl, inr, Bool, true, false, ◌&&◌, List, [], ◌∷◌, ◌++◌,
  append_assoc, append-nil, arith, str_eq, ◌==◌, if◌then◌else◌, Bool-cases, length, Result, ok, err,
  concat_map-append,
}
use remnanode_exporter.Dict.{
  has_source, is_out_of_reach, other_error, status_error, api, insert_failed, not_terminated,
  no_numeric_ids, out_of_fuel, emit, Syncer, SyncError, sized, store_rows, store_result,
  optional_unavailable,
}
use remnanode_exporter.Dict.Refresh.{counted, counted_unless, counted_optional}
use remnanode_exporter.Events.{Event, Row, stored, dict_errors}
use remnanode_exporter.Sink.{Conn, InsertError, insert, append_all}

-- The state goes from `s` to `t`: each table gains the rows given, and the poll's own state is kept.
pub record Extends (rows : String → List Row) (s t : Syncer) : Type 0 where
  pub same_since : t.torrent_since ≡ s.torrent_since
  pub same_resume : t.torrent_resume ≡ s.torrent_resume
  pub same_stored : t.torrent_stored ≡ s.torrent_stored
  pub gained : (table : String) → stored table t.log ≡ stored table s.log ++ rows table

abbrev pub no_rows : String → List Row
no_rows table = []

pub same-Extends : (s : Syncer) → Extends no_rows s s
same-Extends s = record {
  same_since = refl;
  same_resume = refl;
  same_stored = refl;
  gained = λ table. sym (append-nil _);
}

pub trans-Extends :
    (p q : String → List Row) (s t u : Syncer)
    → Extends p s t
    → Extends q t u
    → Extends (λ table. p table ++ q table) s u
trans-Extends p q s t u f g = record {
  same_since = g.same_since ∙ f.same_since;
  same_resume = g.same_resume ∙ f.same_resume;
  same_stored = g.same_stored ∙ f.same_stored;
  gained = λ table. g.gained table ∙ simp (f.gained table, append_assoc);
}

-- rows for one table
abbrev pub only : String → List Row → String → List Row
only own rows table = if str_eq own table then rows else []

-- a batch is stored whole or not at all
abbrev pub taken : Conn → List Row → List Row
taken conn rows = if conn.prepares && (append_all conn rows && conn.sends) then rows else []

emit-Extends :
    (rows : String → List Row) (events : List Event) (s : Syncer)
    → ((table : String) → stored table events ≡ rows table)
    → Extends rows s (emit events s)
unfolding emit
emit-Extends rows events s h = record {
  same_since = refl;
  same_resume = refl;
  same_stored = refl;
  gained = λ table. simp (concat_map-append, h table);
}

pub only_none : (own table : String) → only own [] table ≡ []
only_none own table = ground arith

pub stored-insert :
    (db : String) (conn : Conn) (own : String) (cols : List String) (rows : List Row)
    (table : String)
    → stored table (insert db conn own cols rows).1 ≡ only own (taken conn rows) table
unfolding insert
stored-insert db conn own cols [] table = ground arith
stored-insert db conn own cols (row ∷ rows) table = elim (Bool-cases conn.prepares) [
  | inr e ↦ rw e (sym (only_none own table))
  | inl e ↦ elim (Bool-cases (append_all conn (row ∷ rows))) [
    | inr e' ↦ rw (e', e) (sym (only_none own table))
    | inl e' ↦ elim (Bool-cases conn.sends) [
      | inr e'' ↦ rw (e', e, e'') (sym (only_none own table))
      | inl e'' ↦ rw (e', e, e'') (append-nil _)
    ]
  ]
]

-- the state behind an insert, whatever it returned
sized-Extends :
    (db : String) (conn : Conn) (own : String) (cols : List String) (rows : List Row) (n : ℕ)
    (s : Syncer) (r : Result InsertError (Unit {0})) (events : List Event)
    → ((table : String) → stored table events ≡ only own (taken conn rows) table)
    → Extends (only own (taken conn rows)) s (sized own n (r, events) s).1
unfolding sized
sized-Extends db conn own cols rows n s (ok u) events h =
    emit-Extends _ _ s (λ table. simp (concat_map-append, h table, append-nil))
sized-Extends db conn own cols rows n s (err e) events h = emit-Extends _ _ s h

pub insert-Extends :
    (db : String) (conn : Conn) (own : String) (cols : List String) (rows : List Row) (n : ℕ)
    (s : Syncer)
    → Extends (only own (taken conn rows)) s (sized own n (insert db conn own cols rows) s).1
insert-Extends db conn own cols rows n s =
    sized-Extends db conn own cols rows n s (insert db conn own cols rows).0
      (insert db conn own cols rows).1 (stored-insert db conn own cols rows)

-- the rows of a result, none of an error
abbrev pub rows_of : Result SyncError (List Row) → List Row
rows_of (ok rows) = rows
rows_of (err e) = []

none_taken : (conn : Conn) (own table : String) → only own (taken conn []) table ≡ []
none_taken conn own table = ground arith

none-Extends : (conn : Conn) (own : String) (s : Syncer) → Extends (only own (taken conn [])) s s
none-Extends conn own s = record {
  same_since = refl;
  same_resume = refl;
  same_stored = refl;
  gained = λ table. rw (none_taken conn own table) (sym (append-nil _));
}

pub store_result-Extends :
    (db : String) (conn : Conn) (own : String) (cols : List String)
    (r : Result SyncError (List Row)) (s : Syncer)
    → Extends (only own (taken conn (rows_of r))) s (store_result db conn own cols r s).1
unfolding store_result store_rows
store_result-Extends db conn own cols (err e) s = none-Extends conn own s
store_result-Extends db conn own cols (ok []) s = none-Extends conn own s
store_result-Extends db conn own cols (ok (row ∷ rows)) s =
    let e : (length (row ∷ rows) == 0) ≡ false = ground arith in
    rw e (insert-Extends db conn own cols (row ∷ rows) (length (row ∷ rows)) s)

-- the counters change no table
counted_one-Extends :
    (rows : String → List Row) (own : String) (s t : Syncer)
    → Extends rows s t
    → Extends rows s (emit (dict_errors own ∷ []) t)
unfolding emit
counted_one-Extends rows own s t h = record {
  same_since = h.same_since;
  same_resume = h.same_resume;
  same_stored = h.same_stored;
  gained = λ table. simp (concat_map-append, append-nil, h.gained table);
}

pub counted-Extends :
    (rows : String → List Row) (own : String) (s : Syncer) (r : Result SyncError (Unit {0}))
    (t : Syncer)
    → Extends rows s t
    → Extends rows s (counted own (r, t))
unfolding counted
counted-Extends rows own s (ok u) t h = h
counted-Extends rows own s (err e) t h = counted_one-Extends rows own s t h

-- optionalUnavailable changes `unavailable` alone
pub unavailable-Extends :
    (rows : String → List Row) (source : String) (s : Syncer) (e : SyncError) (t : Syncer)
    → Extends rows s t
    → Extends rows s (optional_unavailable source e t).1
unfolding optional_unavailable
unavailable-Extends rows source s (api other_error) t h = h
unavailable-Extends rows source s (insert_failed e) t h = h
unavailable-Extends rows source s not_terminated t h = h
unavailable-Extends rows source s (no_numeric_ids n) t h = h
unavailable-Extends rows source s out_of_fuel t h = h
unavailable-Extends rows source s (api (status_error code)) t h =
    elim (Bool-cases (is_out_of_reach code)) [
      | inr e ↦ rw e h
      | inl e ↦ elim (Bool-cases (has_source source t.unavailable)) [
        | inl known ↦ rw (e, known) h
        | inr unknown ↦
            rw (e, unknown)
              (record {
                same_since = h.same_since;
                same_resume = h.same_resume;
                same_stored = h.same_stored;
                gained = h.gained;
              })
      ]
    ]

counted_unless-Extends :
    (rows : String → List Row) (own : String) (s : Syncer) (b : Bool) (t : Syncer)
    → Extends rows s t
    → Extends rows s (counted_unless own (b, t))
unfolding counted_unless
counted_unless-Extends rows own s true t h = h
counted_unless-Extends rows own s false t h = counted_one-Extends rows own s t h

pub counted_optional-Extends :
    (rows : String → List Row) (own : String) (s : Syncer) (r : Result SyncError (Unit {0}))
    (t : Syncer)
    → Extends rows s t
    → Extends rows s (counted_optional own (r, t))
unfolding counted_optional
counted_optional-Extends rows own s (ok u) t h = h
counted_optional-Extends rows own s (err e) t h =
    let (b, u) = optional_unavailable "HWID devices" e t in
    counted_unless-Extends rows own s b u (unavailable-Extends rows "HWID devices" s e t h)
