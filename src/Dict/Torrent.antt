-- ===== src/Dict/Torrent.antt =====
-- internal/dict/torrent.go: the poll of the Torrent Blocker reports.
pub mod Memory
pub mod Complete
pub mod Served
pub mod Fresh
pub mod Polls
pub mod Stored
pub mod Young
use remnanode_exporter.Events.{dict_errors, Event}
use remnanode_exporter.Geoip.{Info}
use remnanode_exporter.Sink.{insert, InsertError, Conn}
use remnanode_exporter.Prelude.{
  ℕ, zero, suc, ◌+◌, ◌*◌, String, Bool, true, false, not, ◌&&◌, Option, none, some, List, [], ◌∷◌,
  ◌++◌, map, ltb, leb, ◌==◌, if◌then◌else◌, Text, text_eq, length, Result, ok, err, ℤ, pos, negsuc,
  ◌-ℤ◌, ltb_ℤ, leb_ℤ,
}
use remnanode_exporter.Model.{Time}
use remnanode_exporter.Panel.{Env, parse_time}
use remnanode_exporter.Panel.Devices.{TorrentReport, torrent_row, torrent_columns}
use remnanode_exporter.Dict.{
  api, table_torrent_reports, optional_unavailable, emit, get_json, ApiError, Syncer, HttpAnswer,
  TorrentKey,
}

abbrev pub torrent_page_size : ℕ
torrent_page_size = 1000

abbrev pub torrent_max_pages : ℕ
torrent_max_pages = 100

-- two minutes
abbrev pub torrent_overlap : ℤ
torrent_overlap = pos 120000000000

-- torrentReportsResponse
pub record ReportsResponse : Type 0 where
  pub records : List TorrentReport
  pub total : ℕ

-- the answer to a request for `start` and `size`
abbrev pub ReportsPanel : Type 0
ReportsPanel = ℕ → ℕ → HttpAnswer ReportsResponse

abbrev pub is_zero : Time → Bool
is_zero t = elim t [ pos n ↦ n == 0 | negsuc n ↦ false ]

unfoldable pub key_of : TorrentReport → TorrentKey
key_of r = record { id = r.id; created_at = r.created_at }

unfoldable pub int_eq : ℤ → ℤ → Bool
int_eq (pos m) (pos n) = m == n
int_eq (pos m) (negsuc n) = false
int_eq (negsuc m) (pos n) = false
int_eq (negsuc m) (negsuc n) = m == n

unfoldable pub key_eq : TorrentKey → TorrentKey → Bool
unfolding int_eq
key_eq a b = int_eq a.id b.id && text_eq a.created_at b.created_at

unfoldable pub is_stored : TorrentKey → List (TorrentKey × Time) → Bool
is_stored k [] = false
is_stored k ((j, t) ∷ m) = if key_eq j k then true else is_stored k m

-- unseenTorrentReports
unfoldable pub unseen : List (TorrentKey × Time) → List TorrentReport → List TorrentReport
unseen stored [] = []
unseen stored (r ∷ rs) =
    if is_stored (key_of r) stored then unseen stored rs else r ∷ unseen stored rs

-- m[k] = t
unfoldable pub put_key : TorrentKey → Time → List (TorrentKey × Time) → List (TorrentKey × Time)
put_key k t [] = (k, t) ∷ []
put_key k t ((j, u) ∷ m) = if key_eq j k then (j, t) ∷ m else (j, u) ∷ put_key k t m

-- the second loop of markTorrentReportsStored: what fell out of the overlap is forgotten
unfoldable pub forget : Time → List (TorrentKey × Time) → List (TorrentKey × Time)
forget cutoff [] = []
forget cutoff ((j, u) ∷ m) = if ltb_ℤ u cutoff then forget cutoff m else (j, u) ∷ forget cutoff m

module _ (env : Env) where
  -- the first loop of markTorrentReportsStored
  unfoldable pub mark_loop :
      List TorrentReport → Time → List (TorrentKey × Time) → Time × List (TorrentKey × Time)
  mark_loop [] since stored = (since, stored)
  mark_loop (r ∷ rs) since stored =
      let t = parse_time env r.created_at in
      mark_loop rs (if ltb_ℤ since t then t else since) (put_key (key_of r) t stored)

  unfoldable pub mark_stored : List TorrentReport → Syncer → Syncer
  mark_stored rs s =
      let (since, stored) = mark_loop rs s.torrent_since s.torrent_stored in
      record s { torrent_since = since; torrent_stored = forget (since -ℤ torrent_overlap) stored }

  -- one page: the reports up to the first one that is too old, and whether there was such a one
  unfoldable pub take_page : Time → List TorrentReport → List TorrentReport × Bool
  take_page since [] = ([], false)
  take_page since (r ∷ rs) =
      let old =
        not (is_zero since) && ltb_ℤ (parse_time env r.created_at) (since -ℤ torrent_overlap) in
      let (more, stopped) = take_page since rs in if old then ([], true) else (r ∷ more, stopped)

  -- the loop of fetchTorrentReports, with the pages left
  unfoldable pub reports_loop :
      ReportsPanel → Time → ℕ → ℕ → List TorrentReport → Result ApiError (List TorrentReport)
  reports_loop panel since zero page out = ok out
  reports_loop panel since (suc left) page out =
      elim (get_json (panel (page * torrent_page_size) torrent_page_size)) [
        | err e ↦ err e
        | ok r ↦
            let taken = take_page since r.records in
            let rest = reports_loop panel since left (page + 1) (out ++ taken.0) in
            if taken.1
            then ok (out ++ taken.0)
            else if ltb (length r.records) torrent_page_size
            then ok (out ++ taken.0)
            else if leb r.total ((page + 1) * torrent_page_size)
            then ok (out ++ taken.0)
            else rest
      ]

  -- fetchTorrentReports
  unfoldable pub fetch_reports : ReportsPanel → Time → Result ApiError (List TorrentReport)
  fetch_reports panel since = reports_loop panel since torrent_max_pages 0 []

-- the last instant whose Unix seconds are not positive
abbrev pub epoch_end : Time
epoch_end = pos (719162 * 86400 * 1000000000 + 999999999)

-- latestTorrentReport: max(ts) of the table, or an error; a time up to the epoch is none at all
unfoldable pub latest_report : Option Time → Option Time
latest_report none = none
latest_report (some t) = some (if leb_ℤ t epoch_end then pos 0 else t)

module _ (db : String) (conn : Conn) (env : Env) (geo : Option (Text → Info)) where
  unfoldable pub store_reports :
      List TorrentReport → Result InsertError (Unit {0}) × List Event → Syncer → Syncer
  store_reports rs (ok u, events) s = mark_stored env rs (emit events s)
  store_reports rs (err e, events) s = emit (events ++ dict_errors table_torrent_reports ∷ []) s

  unfoldable pub insert_reports : List TorrentReport → Syncer → Syncer
  insert_reports rs s =
      if length rs == 0
      then s
      else store_reports rs
          (insert db conn table_torrent_reports torrent_columns
            (map (λ r. torrent_row env r geo) rs))
          s

  unfoldable pub poll_failed : Bool × Syncer → Syncer
  poll_failed (true, s) = s
  poll_failed (false, s) = emit (dict_errors table_torrent_reports ∷ []) s

  unfoldable pub poll_fetched : Result ApiError (List TorrentReport) → Syncer → Syncer
  poll_fetched (err e) s = poll_failed (optional_unavailable "torrent reports" (api e) s)
  poll_fetched (ok rs) s = insert_reports (unseen s.torrent_stored rs) s

  unfoldable pub resume : Option Time → Syncer → Option Syncer
  resume none s = none
  resume (some since) s = some (record s { torrent_since = since; torrent_resume = true })

  unfoldable pub poll_from : ReportsPanel → Option Syncer → Syncer → Syncer
  poll_from panel none s = emit (dict_errors table_torrent_reports ∷ []) s
  poll_from panel (some s') s = poll_fetched (fetch_reports env panel s'.torrent_since) s'

  -- pollTorrentReports; `latest` is what ClickHouse answers, asked only before the first poll
  unfoldable pub poll_reports : Bool → Option Time → ReportsPanel → Syncer → Syncer
  poll_reports credentials latest panel s =
      if not credentials
      then s
      else poll_from panel (if s.torrent_resume then some s else resume (latest_report latest) s) s
