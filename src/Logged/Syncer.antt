-- ===== src/Logged/Syncer.antt =====
-- What every insert and every other event keeps, over a run of the Syncer.
use remnanode_exporter.Panel.Devices.{torrent_row, torrent_columns, hwid_columns, TorrentReport}
use remnanode_exporter.Dict.Torrent.{
  latest_report, unseen, ReportsPanel, resume, mark_stored, poll_reports, poll_from, poll_fetched,
  poll_failed, insert_reports, store_reports,
}
use remnanode_exporter.Model.{Time}
use remnanode_exporter.Geoip.{Info}
use remnanode_exporter.Netip.{Netip}
use remnanode_exporter.Panel.{user_columns, Env}
use remnanode_exporter.Sink.{InsertError, Conn}
use remnanode_exporter.Events.{Row, Event, dict_errors}
use remnanode_exporter.Logged.{LogLaws}
use remnanode_exporter.Dict.{
  users_fuel, users_loop, get_json, table_users, table_hwid_devices, sync_users, table_nodes,
  table_torrent_reports, ApiError, Syncer, emit, api,
}
use remnanode_exporter.Dict.Refresh.{
  refresh_devices, refresh_users, refresh_nodes, Reports, has_credentials, sync_all, refresh, poll,
  Round, Tick, run, run_ticks, tick,
}
use remnanode_exporter.Dict.Nodes.{sync_nodes}
use remnanode_exporter.Dict.Hwid.{fetch_devices, device_rows, sync_devices}
use remnanode_exporter.Logged.Rows.{RowLaws, All-map, users_hold, devices_hold}
use remnanode_exporter.Prelude.{
  String, ◌≡◌, sym, inl, inr, Bool, true, false, Option, none, some, List, [], ◌∷◌, arith, ◌==◌,
  if◌then◌else◌, Bool-cases, Text, length, Result, ok, err, subst,
}
use remnanode_exporter.Logged.Stores.{
  store_result_logged, decoded_logged, counted_optional_logged, counted_logged, unavailable_log,
  one,
}

module _ (P : String → List String → Row → Type 0) (Q : List Event → Type 0) (laws : LogLaws P Q)
    (made : RowLaws P) where
  abbrev Holds : Syncer → Type 0
  Holds s = Q s.log

  module _ (db : String) (conn : Conn) (env : Env) (geo : Option (Text → Info)) where
    store_reports_logged :
        (rs : List TorrentReport) (r : Result InsertError (Unit {0})) (events : List Event)
        (s : Syncer)
        → Q events
        → Holds s
        → Holds (store_reports db conn env geo rs (r, events) s)
    unfolding store_reports mark_stored emit
    store_reports_logged rs (ok u) events s q h = laws.append s.log events h q
    store_reports_logged rs (err e) events s q h =
        laws.append s.log _ h
          (laws.append events _ q (laws.quiet (dict_errors table_torrent_reports) tt))

    insert_reports_logged :
        (rs : List TorrentReport) (s : Syncer)
        → Holds s
        → Holds (insert_reports db conn env geo rs s)
    unfolding insert_reports
    insert_reports_logged [] s h = h
    insert_reports_logged (r ∷ rs) s h =
        let some_rows : (length (r ∷ rs) == 0) ≡ false = ground arith in
        rw some_rows (
          store_reports_logged (r ∷ rs) _ _ s
            (laws.inserted db conn table_torrent_reports torrent_columns _
              (All-map _ (λ r. torrent_row env r geo) (λ r. made.of_report env r geo) (r ∷ rs)))
            h)

    poll_failed_logged :
        (b : Bool) (s : Syncer) → Holds s → Holds (poll_failed db conn env geo (b, s))
    unfolding poll_failed
    poll_failed_logged true s h = h
    poll_failed_logged false s h = one P Q laws made (dict_errors table_torrent_reports) s tt h

    poll_fetched_logged :
        (r : Result ApiError (List TorrentReport)) (s : Syncer)
        → Holds s
        → Holds (poll_fetched db conn env geo r s)
    unfolding poll_fetched
    poll_fetched_logged (ok rs) s h = insert_reports_logged (unseen s.torrent_stored rs) s h
    poll_fetched_logged (err e) s h =
        poll_failed_logged _ _
          (subst Q (sym (unavailable_log P Q laws made "torrent reports" (api e) s)) h)

    poll_from_logged :
        (panel : ReportsPanel) (latest : Option Time) (b : Bool) (s : Syncer)
        → Holds s
        → Holds (
            poll_from db conn env geo panel
              (if b then some s else resume db conn env geo latest s)
              s)
    unfolding poll_from resume
    poll_from_logged panel latest true s h = poll_fetched_logged _ s h
    poll_from_logged panel none false s h =
        one P Q laws made (dict_errors table_torrent_reports) s tt h
    poll_from_logged panel (some since) false s h = poll_fetched_logged _ _ h

    poll_logged :
        (credentials : Bool) (latest : Option Time) (panel : ReportsPanel) (s : Syncer)
        → Holds s
        → Holds (poll_reports db conn env geo credentials latest panel s)
    unfolding poll_reports
    poll_logged false latest panel s h = h
    poll_logged true latest panel s h =
        poll_from_logged panel (latest_report latest) s.torrent_resume s h

  module _ (db : String) (env : Env) (ip : Netip) (geo : Option (Text → Info))
      (url token : Text) where
    nodes_logged : (r : Round) (s : Syncer) → Holds s → Holds (refresh_nodes db env ip geo r s)
    unfolding refresh_nodes sync_nodes
    nodes_logged r s h = counted_logged P Q laws made table_nodes _ _ (
        decoded_logged P Q laws made db r.nodes_conn ip r.resolve r.nodes_at (get_json r.nodes) s h)

    users_logged : (r : Round) (s : Syncer) → Holds s → Holds (refresh_users db env ip geo r s)
    unfolding refresh_users sync_users
    users_logged r s h = counted_logged P Q laws made table_users _ _ (
        store_result_logged P Q laws made db r.users_conn table_users user_columns
          (users_loop env r.users r.users_at users_fuel 0 [] []) s
          (users_hold P made env r.users r.users_at users_fuel 0 [] [] tt) h)

    devices_logged : (r : Round) (s : Syncer) → Holds s → Holds (refresh_devices db env ip geo r s)
    unfolding refresh_devices sync_devices
    devices_logged r s h = counted_optional_logged P Q laws made table_hwid_devices _ _ (
        store_result_logged P Q laws made db r.devices_conn table_hwid_devices hwid_columns
          (device_rows env r.devices_at (fetch_devices r.devices)) s
          (devices_hold P made env r.devices_at (fetch_devices r.devices)) h)

    sync_all_logged :
        (r : Round) (s : Syncer) → Holds s → Holds (sync_all db env ip geo url token r s)
    unfolding sync_all
    sync_all_logged r s h = elim (Bool-cases (has_credentials url token)) [
      | inr e ↦ rw e h
      | inl e ↦ rw e (devices_logged r _ (users_logged r _ (nodes_logged r s h)))
    ]

    run_ticks_logged :
        (ts : List Tick) (s : Syncer) → Holds s → Holds (run_ticks db env ip geo url token ts s)
    unfolding run_ticks tick
    run_ticks_logged [] s h = h
    run_ticks_logged (refresh r ∷ ts) s h = run_ticks_logged ts _ (sync_all_logged r s h)
    run_ticks_logged (poll p ∷ ts) s h =
        run_ticks_logged ts _
          (poll_logged db p.conn env geo (has_credentials url token) p.latest p.panel s h)

    -- whatever the panel, ClickHouse and the clock do
    pub run_logged :
        (r : Round) (p : Reports) (ts : List Tick) (s : Syncer)
        → Holds s
        → Holds (run db env ip geo url token r p ts s)
    unfolding run
    run_logged r p ts s h = run_ticks_logged (refresh r ∷ poll p ∷ ts) s h
