-- ===== src/Dict/Torrent/Complete.antt =====
-- What fetchTorrentReports hands out when the panel serves one list, newest first, in pages.
use remnanode_exporter.Prelude.{
  ℕ, zero, suc, ◌+◌, ◌*◌, ◌≤◌, ◌≡◌, refl, sym, ap, ◌∙◌, ◌⊎◌, inl, inr, Bool, true, false, not, ◌&&◌,
  some, List, [], ◌∷◌, ◌++◌, append_assoc, append-nil, arith, ltb, leb, if◌then◌else◌, ltb→lt,
  leb→le, Bool-cases, length, take, drop, length-take, drop-drop, drop_all, All-split,
  take-append-drop, All, ok, ◌-ℤ◌, ◌≤ℤ◌, ltb_ℤ, subst,
}
use remnanode_exporter.Dict.{response, get_json, decoded}
use remnanode_exporter.Dict.Torrent.{
  ReportsPanel, fetch_reports, reports_loop, take_page, is_zero, torrent_overlap, torrent_page_size,
  torrent_max_pages,
}
use remnanode_exporter.Model.{Time}
use remnanode_exporter.Panel.{Env, parse_time}
use remnanode_exporter.Panel.Devices.{TorrentReport}

-- a panel that serves the reports of a list
abbrev pub serve : List TorrentReport → ReportsPanel
serve all start size =
    response 200 (some (record { records = take size (drop start all); total = length all }))

module _ (env : Env) where
  -- too old for a cursor
  abbrev pub is_old : Time → TorrentReport → Bool
  is_old since r =
      not (is_zero since) && ltb_ℤ (parse_time env r.created_at) (since -ℤ torrent_overlap)

  abbrev pub young : Time → List TorrentReport → List TorrentReport
  young since [] = []
  young since (r ∷ rs) = if is_old since r then young since rs else r ∷ young since rs

  -- no report is younger than one before it
  abbrev pub IsNewestFirst : List TorrentReport → Type 0
  IsNewestFirst [] = Unit
  IsNewestFirst (r ∷ rs) =
      All (λ q. parse_time env q.created_at ≤ℤ parse_time env r.created_at) rs × IsNewestFirst rs

  -- behind a report that is too old there are only such
  old_behind :
      (since : Time) (r q : TorrentReport)
      → is_old since r ≡ true
      → parse_time env q.created_at ≤ℤ parse_time env r.created_at
      → is_old since q ≡ true
  old_behind since r q e h = ground arith

  young_none :
      (since : Time) (r : TorrentReport) (rs : List TorrentReport)
      → is_old since r ≡ true
      → All (λ q. parse_time env q.created_at ≤ℤ parse_time env r.created_at) rs
      → young since rs ≡ []
  young_none since r [] e h = refl
  young_none since r (q ∷ rs) e (h, hs) = rw (old_behind since r q e h) (young_none since r rs e hs)

  take_page-young :
      (since : Time) (rs : List TorrentReport)
      → IsNewestFirst rs
      → (take_page env since rs).0 ≡ young since rs
  unfolding take_page
  take_page-young since [] h = refl
  take_page-young since (r ∷ rs) (h, hs) = elim (Bool-cases (is_old since r)) [
    | inl e ↦ rw e (sym (young_none since r rs e h))
    | inr e ↦ rw e (ap (λ x. r ∷ x) (take_page-young since rs hs))
  ]

  young-append :
      (since : Time) (xs ys : List TorrentReport)
      → young since (xs ++ ys) ≡ young since xs ++ young since ys
  young-append since [] ys = refl
  young-append since (r ∷ rs) ys = elim (Bool-cases (is_old since r)) [
    | inl e ↦ rw e (young-append since rs ys)
    | inr e ↦ rw e (ap (λ x. r ∷ x) (young-append since rs ys))
  ]

  newest_split :
      (xs ys : List TorrentReport) → IsNewestFirst (xs ++ ys) → IsNewestFirst xs × IsNewestFirst ys
  newest_split [] ys h = (tt, h)
  newest_split (r ∷ rs) ys (h, hs) =
      let (a, b) = newest_split rs ys hs in (((All-split _ rs ys h).0, a), b)

  -- a page that ends at a report that is too old leaves no young one behind it
  stopped-young :
      (since : Time) (xs ys : List TorrentReport)
      → (take_page env since xs).1 ≡ true
      → IsNewestFirst (xs ++ ys)
      → young since ys ≡ []
  unfolding take_page
  stopped-young since [] ys e h = cc
  stopped-young since (r ∷ rs) ys e (h, hs) = elim (Bool-cases (is_old since r)) [
    | inl o ↦ young_none since r ys o (All-split _ rs ys h).1
    | inr o ↦ stopped-young since rs ys (rw o at e) hs
  ]

  abbrev behind_page : ℕ → List TorrentReport → List TorrentReport
  behind_page page all = drop (page * torrent_page_size) all

  behind_next :
      (page : ℕ) (all : List TorrentReport)
      → drop torrent_page_size (behind_page page all) ≡ behind_page (page + 1) all
  behind_next page all =
      drop-drop (page * torrent_page_size) torrent_page_size all
      ∙ ap (λ k. drop k all) (omega arith)

  -- each reason to stop leaves no young report behind the page
  last_page :
      (since : Time) (page : ℕ) (all : List TorrentReport)
      → IsNewestFirst (behind_page page all)
      → let records = take torrent_page_size (behind_page page all) in
        (((take_page env since records).1 ≡ true)
          ⊎ (ltb (length records) torrent_page_size ≡ true)
          ⊎ (leb (length all) ((page + 1) * torrent_page_size) ≡ true))
        → young since (behind_page (page + 1) all) ≡ []
  last_page since page all h (inl e) = rw (sym (behind_next page all)) (
      stopped-young since (take torrent_page_size (behind_page page all))
        (drop torrent_page_size (behind_page page all)) e
        (rw (take-append-drop torrent_page_size (behind_page page all)) h))
  last_page since page all h (inr (inl e)) =
      let k = length-take torrent_page_size (behind_page page all) in
      rw
        (
          sym (behind_next page all),
          drop_all torrent_page_size (behind_page page all) (omega (arith, k, ltb→lt _ _ e)),
        )
        refl
  last_page since page all h (inr (inr e)) =
      rw (drop_all ((page + 1) * torrent_page_size) all (leb→le _ _ e)) refl

  -- the reports of a page and the young ones behind it
  page_young :
      (since : Time) (page : ℕ) (all : List TorrentReport)
      → IsNewestFirst (behind_page page all)
      → young since (behind_page page all)
        ≡ (take_page env since (take torrent_page_size (behind_page page all))).0
          ++ young since (behind_page (page + 1) all)
  page_young since page all h =
      let records = take torrent_page_size (behind_page page all) in
      let behind = drop torrent_page_size (behind_page page all) in
      let split = take-append-drop torrent_page_size (behind_page page all) in
      let sorted : IsNewestFirst (records ++ behind) = rw split h in
      ap (young since) (sym split)
      ∙ young-append since records behind
      ∙ ap (λ x. x ++ young since behind)
          (sym (take_page-young since records (newest_split records behind sorted).0))
      ∙ ap (λ x. (take_page env since records).0 ++ young since x) (behind_next page all)

  if_three :
      {A : Type 0} (a b c : Bool) (x y z : A)
      → ((a ≡ true) ⊎ (b ≡ true) ⊎ (c ≡ true) → x ≡ z)
      → y ≡ z
      → (if a then x else if b then x else if c then x else y) ≡ z
  if_three true b c x y z h k = h (inl refl)
  if_three false true c x y z h k = h (inr (inl refl))
  if_three false false true x y z h k = h (inr (inr refl))
  if_three false false false x y z h k = k

  newest_next :
      (page : ℕ) (all : List TorrentReport)
      → IsNewestFirst (behind_page page all)
      → IsNewestFirst (behind_page (page + 1) all)
  newest_next page all h =
      let records = take torrent_page_size (behind_page page all) in
      let behind = drop torrent_page_size (behind_page page all) in
      let sorted : IsNewestFirst (records ++ behind) =
        rw (take-append-drop torrent_page_size (behind_page page all)) h in
      subst IsNewestFirst (behind_next page all) (newest_split records behind sorted).1

  -- the loop from one page on
  loop-young :
      (all : List TorrentReport) (since : Time) (left page : ℕ) (out : List TorrentReport)
      → IsNewestFirst (behind_page page all)
      → length all ≤ (page + left) * torrent_page_size
      → reports_loop env (serve all) since left page out
        ≡ ok (out ++ young since (behind_page page all))
  unfolding reports_loop get_json decoded
  loop-young all since zero page out h le =
      rw (drop_all (page * torrent_page_size) all (omega (arith, le)))
        (ap ok (sym (append-nil out)))
  loop-young all since (suc left) page out h le =
      let records = take torrent_page_size (behind_page page all) in
      let taken = take_page env since records in
      let all_young = page_young since page all h in
      let next =
        loop-young all since left (page + 1) (out ++ taken.0) (newest_next page all h)
          (omega (arith, le)) in
      if_three taken.1 _ _ (ok (out ++ taken.0)) _ (ok (out ++ young since (behind_page page all)))
        (λ stop.
          ap (λ x. ok (out ++ x))
            (sym (append-nil _)
              ∙ ap (λ x. taken.0 ++ x) (sym (last_page since page all h stop))
              ∙ sym all_young))
        (next ∙ ap ok (append_assoc out taken.0 _ ∙ ap (λ x. out ++ x) (sym all_young)))

  -- the reports of the list that are young, in order
  pub fetch_reports-young :
      (all : List TorrentReport) (since : Time)
      → IsNewestFirst all
      → length all ≤ torrent_max_pages * torrent_page_size
      → fetch_reports env (serve all) since ≡ ok (young since all)
  unfolding fetch_reports
  fetch_reports-young all since h le =
      loop-young all since torrent_max_pages 0 [] h (omega (arith, le))
