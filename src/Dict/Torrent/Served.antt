-- ===== src/Dict/Torrent/Served.antt =====
-- What one poll stores of the list that the panel serves.
use remnanode_exporter.Dict.Torrent.Memory.{int_eq_iff}
use remnanode_exporter.Prelude.{
  ◌≤◌, String, ◌≡◌, refl, sym, ap, ◌↔◌, ◌⊎◌, inl, inr, true, false, Option, List, [], ◌∷◌, ◌++◌,
  append-nil, map, arith, ◌==◌, Bool-cases, Text, text_eq_iff, length, Result, ok, err, pos, negsuc,
  ◌-ℤ◌, ◌≤ℤ◌, concat_map-append,
}
use remnanode_exporter.Dict.{TorrentKey, Syncer, emit, table_torrent_reports}
use remnanode_exporter.Dict.Torrent.{
  key_of, is_zero, is_stored, key_eq, poll_reports, poll_from, poll_fetched, insert_reports,
  store_reports, mark_stored, unseen,
}
use remnanode_exporter.Dict.Torrent.Complete.{
  is_old, serve, young, IsNewestFirst, fetch_reports-young,
}
use remnanode_exporter.Dict.Torrent.Stored.{row_of}
use remnanode_exporter.Events.{Event, stored}
use remnanode_exporter.Geoip.{Info}
use remnanode_exporter.Model.{Time}
use remnanode_exporter.Panel.{parse_time, Env}
use remnanode_exporter.Panel.Devices.{TorrentReport, torrent_columns}
use remnanode_exporter.Sink.{Conn, InsertError}
use remnanode_exporter.Sink.Outcome.{Answers, Stores, insert-Stores, insert_ok_iff}

-- The report was stored by this process, as far as it remembers.
abbrev pub IsRemembered : List (TorrentKey × Time) → TorrentReport → Type 0
IsRemembered [] r = ⊥
IsRemembered ((k, t) ∷ m) r = ((k.id ≡ r.id) × (k.created_at ≡ r.created_at)) ⊎ IsRemembered m r

-- The report is not older than two minutes before the cursor, if there is a cursor.
abbrev pub IsRecent : Env → Time → TorrentReport → Type 0
IsRecent env since r = (since ≡ pos 0) ⊎ (since -ℤ pos 120000000000 ≤ℤ parse_time env r.created_at)

-- `new` are the reports of `all`, in order, that are recent and not remembered.
pub data Picks (env : Env) (since : Time) (stored : List (TorrentKey × Time))
    : List TorrentReport → List TorrentReport → Type 0 where
  none_left : Picks env since stored [] []
  pick :
      {all new : List TorrentReport} (r : TorrentReport)
      → IsRecent env since r
      → ¬ IsRemembered stored r
      → Picks env since stored all new
      → Picks env since stored (r ∷ all) (r ∷ new)
  pass_old :
      {all new : List TorrentReport} (r : TorrentReport)
      → ¬ IsRecent env since r
      → Picks env since stored all new
      → Picks env since stored (r ∷ all) new
  pass_stored :
      {all new : List TorrentReport} (r : TorrentReport)
      → IsRemembered stored r
      → Picks env since stored all new
      → Picks env since stored (r ∷ all) new

same_key :
    (k : TorrentKey) (r : TorrentReport)
    → (key_eq k (key_of r) ≡ true) ↔ ((k.id ≡ r.id) × (k.created_at ≡ r.created_at))
unfolding key_eq key_of
same_key k r = ground (arith, int_eq_iff k.id r.id, text_eq_iff k.created_at r.created_at)

is_stored_sound :
    (m : List (TorrentKey × Time)) (r : TorrentReport)
    → is_stored (key_of r) m ≡ true
    → IsRemembered m r
unfolding is_stored
is_stored_sound [] r h = cc
is_stored_sound ((k, t) ∷ m) r h = elim (Bool-cases (key_eq k (key_of r))) [
  | inl e ↦ inl ((same_key k r).0 e)
  | inr e ↦ inr (is_stored_sound m r (rw e at h))
]

is_stored_complete :
    (m : List (TorrentKey × Time)) (r : TorrentReport)
    → IsRemembered m r
    → is_stored (key_of r) m ≡ true
unfolding is_stored
is_stored_complete [] r h = absurd h
is_stored_complete ((k, t) ∷ m) r (inl h) = rw ((same_key k r).1 h) refl
is_stored_complete ((k, t) ∷ m) r (inr h) = ground (arith, is_stored_complete m r h)

is_zero_iff : (since : Time) → (is_zero since ≡ true) ↔ (since ≡ pos 0)
is_zero_iff (pos n) = ground arith
is_zero_iff (negsuc n) = ground arith

is_old-IsRecent :
    (env : Env) (since : Time) (r : TorrentReport)
    → (is_old env since r ≡ false) ↔ IsRecent env since r
is_old-IsRecent env since r = ground (arith, is_zero_iff since)

Picks-unseen :
    (env : Env) (since : Time) (m : List (TorrentKey × Time)) (all new : List TorrentReport)
    → Picks env since m all new
    → unseen m (young env since all) ≡ new
unfolding unseen
Picks-unseen env since m _ _ none_left = refl
Picks-unseen env since m _ _ (pick {all = all} {new = new} r recent fresh h) =
    elim (Bool-cases (is_stored (key_of r) m)) [
      | inl e ↦ absurd (fresh (is_stored_sound m r e))
      | inr e ↦
          rw ((is_old-IsRecent env since r).1 recent, e)
            (ap (λ x. r ∷ x) (Picks-unseen env since m all new h))
    ]
Picks-unseen env since m _ _ (pass_old {all = all} {new = new} r old h) =
    elim (Bool-cases (is_old env since r)) [
      | inl e ↦ rw e (Picks-unseen env since m all new h)
      | inr e ↦ absurd (old ((is_old-IsRecent env since r).0 e))
    ]
Picks-unseen env since m _ _ (pass_stored {all = all} {new = new} r known h) =
    elim (Bool-cases (is_old env since r)) [
      | inl e ↦ rw e (Picks-unseen env since m all new h)
      | inr e ↦ rw (e, is_stored_complete m r known) (Picks-unseen env since m all new h)
    ]

module _ (db : String) (conn : Conn) (env : Env) (geo : Option (Text → Info)) where
  stored_ok :
      (rs : List TorrentReport) (r : Result InsertError (Unit {0})) (events : List Event)
      (s : Syncer)
      → r ≡ ok tt
      → Stores db conn table_torrent_reports torrent_columns (map (row_of db env geo) rs) r events
      → stored table_torrent_reports (store_reports db conn env geo rs (r, events) s).log
        ≡ stored table_torrent_reports s.log ++ map (row_of db env geo) rs
  unfolding store_reports mark_stored emit
  stored_ok rs (ok u) events s e st = simp (concat_map-append, st)
  stored_ok rs (err x) events s e st = cc

  inserted_rows :
      (rs : List TorrentReport) (s : Syncer)
      → Answers db conn table_torrent_reports torrent_columns (map (row_of db env geo) rs)
      → stored table_torrent_reports (insert_reports db conn env geo rs s).log
        ≡ stored table_torrent_reports s.log ++ map (row_of db env geo) rs
  unfolding insert_reports
  inserted_rows [] s a = sym (append-nil _)
  inserted_rows (r ∷ rs) s a =
      let rows = map (row_of db env geo) (r ∷ rs) in
      let e : (length (r ∷ rs) == 0) ≡ false = ground arith in
      rw e (
        stored_ok (r ∷ rs) _ _ s
          ((insert_ok_iff db conn table_torrent_reports torrent_columns _ _).1 a)
          (insert-Stores db conn table_torrent_reports torrent_columns rows))

  -- A poll misses nothing: when the cursor is set, the panel serves one list of at most a hundred
  -- thousand reports in pages, newest first, and ClickHouse takes the batch, then torrent_reports gains,
  -- in order, the rows of exactly those reports of the list that are not older than two minutes before
  -- the cursor (all of them, when it is Go's zero time) and of which the process does not remember the
  -- id with the time text.
  pub poll_reports_complete :
      (all new : List TorrentReport) (latest : Option Time) (s : Syncer)
      → s.torrent_resume ≡ true
      → IsNewestFirst env all
      → length all ≤ 100000
      → Picks env s.torrent_since s.torrent_stored all new
      → Answers db conn table_torrent_reports torrent_columns (map (row_of db env geo) new)
      → stored table_torrent_reports (poll_reports db conn env geo true latest (serve all) s).log
        ≡ stored table_torrent_reports s.log ++ map (row_of db env geo) new
  unfolding poll_reports poll_from poll_fetched
  poll_reports_complete all new latest s e h le picks a =
      let same = Picks-unseen env s.torrent_since s.torrent_stored all new picks in
      simp e (rw (fetch_reports-young env all s.torrent_since h le, same) (inserted_rows new s a))
