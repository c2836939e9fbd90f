-- ===== src/Dict/Torrent/Young.antt =====
-- Every report that fetchTorrentReports hands out is one that the panel served, and none is too old.
use mathlib.Core.List.{Mem, mem-cons_self, mem-cons_of_mem}
use remnanode_exporter.Dict.{HttpAnswer, transport_error, response, decoded}
use remnanode_exporter.Panel.Devices.{TorrentReport}
use remnanode_exporter.Prelude.{
  ℕ, zero, suc, ◌+◌, ◌*◌, ◌≡◌, refl, ◌⊎◌, inl, inr, Bool, true, false, none, some, List, [], ◌∷◌,
  ◌++◌, arith, ltb, leb, if◌then◌else◌, Bool-cases, length, All, All-append, Result, ok, err, ◌-ℤ◌,
  ltb_ℤ,
}
use remnanode_exporter.Model.{Time}
use remnanode_exporter.Panel.{Env, parse_time}
use remnanode_exporter.Dict.{HttpAnswer, decoded, response, get_json, ApiError}
use remnanode_exporter.Dict.Torrent.{
  ReportsResponse, torrent_page_size, torrent_max_pages, fetch_reports, reports_loop, ReportsPanel,
  torrent_overlap, take_page, is_zero,
}

-- The report stands in an answer of the panel.
abbrev pub IsServed : ReportsPanel → TorrentReport → Type 0
IsServed panel r =
    (start : ℕ) × (size : ℕ) × (x : ReportsResponse) × (panel start size ≡ response 200 (some x))
    × Mem r x.records

answered :
    (a : HttpAnswer ReportsResponse) (x : ReportsResponse)
    → get_json a ≡ ok x
    → a ≡ response 200 (some x)
unfolding get_json decoded
answered transport_error x e = cc
answered (response code none) x e = ground arith
answered (response code (some y)) x e = ground arith

all_served :
    (panel : ReportsPanel) (rs : List TorrentReport)
    → ((r : TorrentReport) → Mem r rs → IsServed panel r)
    → All (IsServed panel) rs
all_served panel [] h = tt
all_served panel (r ∷ rs) h =
    (h r mem-cons_self, all_served panel rs (λ q m. h q (mem-cons_of_mem r m)))

module _ (env : Env) where
  -- The report is not older than the overlap behind the cursor, if there is a cursor.
  abbrev pub IsYoung : Time → TorrentReport → Type 0
  IsYoung since r =
      (is_zero since ≡ true)
      ⊎ (ltb_ℤ (parse_time env r.created_at) (since -ℤ torrent_overlap) ≡ false)

  take_page-IsYoung :
      (since : Time) (rs : List TorrentReport) → All (IsYoung since) (take_page env since rs).0
  unfolding take_page
  take_page-IsYoung since [] = tt
  take_page-IsYoung since (r ∷ rs) = elim (Bool-cases (is_zero since)) [
    | inl z ↦ rw z (inl z, take_page-IsYoung since rs)
    | inr z ↦ elim (Bool-cases (ltb_ℤ (parse_time env r.created_at) (since -ℤ torrent_overlap))) [
      | inl old ↦ rw z (rw old tt)
      | inr young ↦ rw z (rw young (inr young, take_page-IsYoung since rs))
    ]
  ]

  module _ (P : TorrentReport → Type 0) where
    -- every report of an answer
    abbrev pub AllOf : Result ApiError (List TorrentReport) → Type 0
    AllOf (ok rs) = All P rs
    AllOf (err e) = Unit {0}

    stop-AllOf :
        (a b c : Bool) (out : List TorrentReport) (rest : Result ApiError (List TorrentReport))
        → All P out
        → AllOf rest
        → AllOf (if a then ok out else if b then ok out else if c then ok out else rest)
    stop-AllOf true b c out rest h k = h
    stop-AllOf false true c out rest h k = h
    stop-AllOf false false true out rest h k = h
    stop-AllOf false false false out rest h k = k

    answer-AllOf :
        (x : Result ApiError ReportsResponse)
        (f : ReportsResponse → Result ApiError (List TorrentReport))
        → ((r : ReportsResponse) → x ≡ ok r → AllOf (f r))
        → AllOf (elim x [ err e ↦ err e | ok r ↦ f r ])
    answer-AllOf (ok r) f h = h r refl
    answer-AllOf (err e) f h = tt

    -- what holds of the reports that are taken of every page
    abbrev Pages : ReportsPanel → Time → Type 0
    Pages panel since =
        (start size : ℕ) (r : ReportsResponse)
        → get_json (panel start size) ≡ ok r
        → All P (take_page env since r.records).0

    reports_loop-AllOf :
        (panel : ReportsPanel) (since : Time) (left page : ℕ) (out : List TorrentReport)
        → Pages panel since
        → All P out
        → AllOf (reports_loop env panel since left page out)
    unfolding reports_loop
    reports_loop-AllOf panel since zero page out pages h = h
    reports_loop-AllOf panel since (suc left) page out pages h =
        answer-AllOf (get_json (panel (page * torrent_page_size) torrent_page_size)) _ (λ r e.
          let more = All-append P out _ h (pages _ _ r e) in
          let next = out ++ (take_page env since r.records).0 in
          stop-AllOf (take_page env since r.records).1 (ltb (length r.records) torrent_page_size)
            (leb r.total ((page + 1) * torrent_page_size)) next
            (reports_loop env panel since left (page + 1) next) more
            (reports_loop-AllOf panel since left (page + 1) next pages more))

    fetch-AllOf :
        (panel : ReportsPanel) (since : Time)
        → Pages panel since
        → AllOf (fetch_reports env panel since)
    unfolding fetch_reports
    fetch-AllOf panel since pages = reports_loop-AllOf panel since torrent_max_pages 0 [] pages tt

    take_page-All :
        (since : Time) (rs : List TorrentReport) → All P rs → All P (take_page env since rs).0
    unfolding take_page
    take_page-All since [] h = tt
    take_page-All since (r ∷ rs) (h, hs) = elim (Bool-cases (is_zero since)) [
      | inl z ↦ rw z (h, take_page-All since rs hs)
      | inr z ↦ elim (Bool-cases (ltb_ℤ (parse_time env r.created_at) (since -ℤ torrent_overlap))) [
        | inl old ↦ rw z (rw old tt)
        | inr young ↦ rw z (rw young (h, take_page-All since rs hs))
      ]
    ]

  pub fetch-IsYoung :
      (panel : ReportsPanel) (since : Time) → AllOf (IsYoung since) (fetch_reports env panel since)
  fetch-IsYoung panel since =
      fetch-AllOf (IsYoung since) panel since (λ start size r e. take_page-IsYoung since r.records)

  pub fetch-IsServed :
      (panel : ReportsPanel) (since : Time) → AllOf (IsServed panel) (fetch_reports env panel since)
  fetch-IsServed panel since = fetch-AllOf (IsServed panel) panel since (λ start size x e.
      take_page-All (IsServed panel) since x.records
        (all_served panel x.records (λ r m. (start, size, x, answered _ x e, m))))
