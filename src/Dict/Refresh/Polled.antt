-- ===== src/Dict/Refresh/Polled.antt =====
-- A poll of the torrent reports touches no table but its own.
use remnanode_exporter.Prelude.{
  String, ◌≡◌, refl, ◌∙◌, inl, inr, Bool, true, false, Option, none, some, List, [], ◌∷◌,
  append-nil, map, arith, str_eq, ◌==◌, if◌then◌else◌, Bool-cases, Text, length, Result, ok, err,
  concat_map-append,
}
use remnanode_exporter.Dict.{
  api, emit, ApiError, Syncer, optional_unavailable, table_torrent_reports,
}
use remnanode_exporter.Dict.Refresh.Effects.{
  only, taken, same-Extends, no_rows, unavailable-Extends, stored-insert,
}
use remnanode_exporter.Dict.Torrent.{
  poll_reports, poll_from, poll_fetched, poll_failed, insert_reports, store_reports, resume,
  mark_stored, fetch_reports, latest_report, ReportsPanel,
}
use remnanode_exporter.Events.{Event, Row, stored, dict_errors}
use remnanode_exporter.Geoip.{Info}
use remnanode_exporter.Model.{Time}
use remnanode_exporter.Panel.{Env}
use remnanode_exporter.Panel.Devices.{TorrentReport, torrent_row, torrent_columns}
use remnanode_exporter.Sink.{Conn, InsertError, insert}

abbrev pub Others : Syncer → Syncer → Type 0
Others s t =
    (table : String)
    → str_eq table_torrent_reports table ≡ false
    → stored table t.log ≡ stored table s.log

module _ (db : String) (conn : Conn) (env : Env) (geo : Option (Text → Info)) where
  error-Others :
      (own : String) (s t : Syncer) → Others s t → Others s (emit (dict_errors own ∷ []) t)
  unfolding emit
  error-Others own s t h table e = simp (concat_map-append, append-nil, h table e)

  only_other :
      (own : String) (rows : List Row) (table : String)
      → str_eq own table ≡ false
      → only own rows table ≡ []
  only_other own rows table e = ground arith

  store-Others :
      (rs : List TorrentReport) (rows : List Row) (r : Result InsertError (Unit {0}))
      (events : List Event) (s : Syncer)
      → ((table : String) → stored table events ≡ only table_torrent_reports rows table)
      → Others s (store_reports db conn env geo rs (r, events) s)
  unfolding store_reports mark_stored emit
  store-Others rs rows (ok u) events s h table e =
      simp (concat_map-append, h table, only_other table_torrent_reports rows table e, append-nil)
  store-Others rs rows (err z) events s h table e =
      simp (concat_map-append, h table, only_other table_torrent_reports rows table e, append-nil)

  insert-Others :
      (rs : List TorrentReport) (s : Syncer) → Others s (insert_reports db conn env geo rs s)
  unfolding insert_reports
  insert-Others rs s table e = elim (Bool-cases (length rs == 0)) [
    | inl z ↦ rw z refl
    | inr z ↦
        let rows = map (λ r. torrent_row env r geo) rs in
        let inserted = insert db conn table_torrent_reports torrent_columns rows in
        rw z (
          store-Others rs (taken conn rows) inserted.0 inserted.1 s
            (stored-insert db conn table_torrent_reports torrent_columns rows) table e)
  ]

  failed-Others :
      (b : Bool) (s t : Syncer) → Others s t → Others s (poll_failed db conn env geo (b, t))
  unfolding poll_failed
  failed-Others true s t h = h
  failed-Others false s t h = error-Others table_torrent_reports s t h

  fetched-Others :
      (r : Result ApiError (List TorrentReport)) (s : Syncer)
      → Others s (poll_fetched db conn env geo r s)
  unfolding poll_fetched
  fetched-Others (ok rs) s = insert-Others _ s
  fetched-Others (err e) s =
      let (b, t) = optional_unavailable "torrent reports" (api e) s in
      let same = unavailable-Extends no_rows "torrent reports" s (api e) s (same-Extends s) in
      failed-Others b s t (λ table z. same.gained table ∙ append-nil _)

  resumed-Others :
      (panel : ReportsPanel) (latest : Option Time) (s : Syncer)
      → Others s (poll_from db conn env geo panel (resume db conn env geo latest s) s)
  unfolding poll_from resume
  resumed-Others panel none s table e = error-Others table_torrent_reports s s (λ t z. refl) table e
  resumed-Others panel (some since) s table e =
      fetched-Others (fetch_reports env panel since)
        (record s { torrent_since = since; torrent_resume = true }) table e

  cursor-Others :
      (b : Bool) (latest : Option Time) (panel : ReportsPanel) (s : Syncer)
      → Others s (
          poll_from db conn env geo panel (if b then some s else resume db conn env geo latest s) s)
  cursor-Others false latest panel s = resumed-Others panel latest s
  cursor-Others true latest panel s =
      unfold poll_from in fetched-Others (fetch_reports env panel s.torrent_since) s

  pub poll_reports-Others :
      (credentials : Bool) (latest : Option Time) (panel : ReportsPanel) (s : Syncer)
      → Others s (poll_reports db conn env geo credentials latest panel s)
  unfolding poll_reports
  poll_reports-Others false latest panel s = λ table e. refl
  poll_reports-Others true latest panel s =
      cursor-Others s.torrent_resume (latest_report latest) panel s
