-- ===== src/Dict/Refresh/Own.antt =====
-- The set of the panel's own addresses behind any number of ticks of Run.
use remnanode_exporter.Dict.Hwid.{fetch_devices, device_rows, sync_devices}
use remnanode_exporter.Dict.Nodes.{sync_nodes, sync_decoded, store_nodes, refresh_infra, node_rows}
use remnanode_exporter.Dict.Refresh.{
  Round, counted, counted_unless, counted_optional, refresh_nodes, refresh_users, refresh_devices,
}
use remnanode_exporter.Dict.Torrent.{
  poll_reports, poll_from, poll_fetched, poll_failed, insert_reports, store_reports, resume,
  mark_stored, latest_report, ReportsPanel, unseen,
}
use remnanode_exporter.Dict.{
  users_fuel, users_loop, user_columns, table_hwid_devices, table_users, Syncer, SyncError,
  ApiError, api, status_error, response, decoded, other_error, insert_failed, not_terminated,
  no_numeric_ids, out_of_fuel, emit, sized, store_rows, store_result, optional_unavailable,
  sync_users, get_json, table_nodes,
}
use remnanode_exporter.Events.{Event, Row}
use remnanode_exporter.Geoip.{Info}
use remnanode_exporter.Infra.{IpSet, replace, node_addresses}
use remnanode_exporter.Model.{Time}
use remnanode_exporter.Netip.{Netip}
use remnanode_exporter.Panel.{Env, ApiNode, node_columns}
use remnanode_exporter.Panel.Devices.{hwid_columns, TorrentReport}
use remnanode_exporter.Sink.{Conn, InsertError, insert}
use remnanode_exporter.Prelude.{
  ℕ, String, ◌≡◌, refl, ◌∙◌, inl, inr, Bool, true, false, Option, none, some, List, [], ◌∷◌, arith,
  ◌==◌, if◌then◌else◌, Bool-cases, Text, length, Result, ok, err,
}

sized-infra :
    (table : String) (n : ℕ) (r : Result InsertError (Unit {0})) (events : List Event) (s : Syncer)
    → (sized table n (r, events) s).1.infra ≡ s.infra
unfolding sized emit
sized-infra table n (ok u) events s = refl
sized-infra table n (err e) events s = refl

counted-infra :
    (table : String) (r : Result SyncError (Unit {0})) (s : Syncer)
    → (counted table (r, s)).infra ≡ s.infra
unfolding counted emit
counted-infra table (ok u) s = refl
counted-infra table (err e) s = refl

optional_unavailable-infra :
    (source : String) (e : SyncError) (s : Syncer)
    → (optional_unavailable source e s).1.infra ≡ s.infra
unfolding optional_unavailable
optional_unavailable-infra source (api other_error) s = refl
optional_unavailable-infra source (insert_failed e) s = refl
optional_unavailable-infra source not_terminated s = refl
optional_unavailable-infra source (no_numeric_ids n) s = refl
optional_unavailable-infra source out_of_fuel s = refl
optional_unavailable-infra source (api (status_error code)) s = ground arith

counted_unless-infra :
    (table : String) (b : Bool) (s : Syncer) → (counted_unless table (b, s)).infra ≡ s.infra
unfolding counted_unless emit
counted_unless-infra table true s = refl
counted_unless-infra table false s = refl

counted_optional-infra :
    (table : String) (r : Result SyncError (Unit {0})) (s : Syncer)
    → (counted_optional table (r, s)).infra ≡ s.infra
unfolding counted_optional
counted_optional-infra table (ok u) s = refl
counted_optional-infra table (err e) s =
    counted_unless-infra table _ _ ∙ optional_unavailable-infra "HWID devices" e s

module _ (db : String) (conn : Conn) where
  store_result-infra :
      (table : String) (cols : List String) (r : Result SyncError (List Row)) (s : Syncer)
      → (store_result db conn table cols r s).1.infra ≡ s.infra
  unfolding store_result store_rows
  store_result-infra table cols (err e) s = refl
  store_result-infra table cols (ok []) s = refl
  store_result-infra table cols (ok (row ∷ rows)) s =
      let some_rows : (length (row ∷ rows) == 0) ≡ false = ground arith in
      let inserted = insert db conn table cols (row ∷ rows) in
      rw some_rows (sized-infra table (length (row ∷ rows)) inserted.0 inserted.1 s)

  store_nodes-infra :
      (ip : Netip) (resolve : Text → Option (List Text)) (now : Time) (ns : List ApiNode)
      (s : Syncer)
      → (store_nodes db conn ip resolve now ns s).1.infra ≡ s.infra
  unfolding store_nodes
  store_nodes-infra ip resolve now ns s = elim (Bool-cases (length (node_rows now ns) == 0)) [
    | inl e ↦ rw e refl
    | inr e ↦
        let inserted = insert db conn table_nodes node_columns (node_rows now ns) in
        rw e (sized-infra table_nodes (length (node_rows now ns)) inserted.0 inserted.1 s)
  ]

  module _ (env : Env) (geo : Option (Text → Info)) where
    store_reports-infra :
        (rs : List TorrentReport) (r : Result InsertError (Unit {0})) (events : List Event)
        (s : Syncer)
        → (store_reports db conn env geo rs (r, events) s).infra ≡ s.infra
    unfolding store_reports mark_stored emit
    store_reports-infra rs (ok u) events s = refl
    store_reports-infra rs (err e) events s = refl

    insert_reports-infra :
        (rs : List TorrentReport) (s : Syncer)
        → (insert_reports db conn env geo rs s).infra ≡ s.infra
    unfolding insert_reports
    insert_reports-infra rs s = elim (Bool-cases (length rs == 0)) [
      | inl e ↦ rw e refl
      | inr e ↦ rw e (store_reports-infra rs _ _ s)
    ]

    poll_failed-infra :
        (b : Bool) (s : Syncer) → (poll_failed db conn env geo (b, s)).infra ≡ s.infra
    unfolding poll_failed emit
    poll_failed-infra true s = refl
    poll_failed-infra false s = refl

    poll_fetched-infra :
        (r : Result ApiError (List TorrentReport)) (s : Syncer)
        → (poll_fetched db conn env geo r s).infra ≡ s.infra
    unfolding poll_fetched
    poll_fetched-infra (ok rs) s = insert_reports-infra (unseen s.torrent_stored rs) s
    poll_fetched-infra (err e) s =
        poll_failed-infra _ _ ∙ optional_unavailable-infra "torrent reports" (api e) s

    poll_from-infra :
        (panel : ReportsPanel) (latest : Option Time) (b : Bool) (s : Syncer)
        → (poll_from db conn env geo panel
            (if b then some s else resume db conn env geo latest s)
            s).infra
          ≡ s.infra
    unfolding poll_from resume emit
    poll_from-infra panel latest true s = poll_fetched-infra _ s
    poll_from-infra panel none false s = refl
    poll_from-infra panel (some since) false s = poll_fetched-infra _ _

    pub poll_reports-infra :
        (credentials : Bool) (latest : Option Time) (panel : ReportsPanel) (s : Syncer)
        → (poll_reports db conn env geo credentials latest panel s).infra ≡ s.infra
    unfolding poll_reports
    poll_reports-infra false latest panel s = refl
    poll_reports-infra true latest panel s =
        poll_from-infra panel (latest_report latest) s.torrent_resume s

-- the set behind an answer to the request for the nodes
abbrev pub own_after :
    Netip → (Text → Option (List Text)) → Result ApiError (List ApiNode) → IpSet → IpSet
own_after ip resolve (ok ns) old = replace (node_addresses ip ns resolve) old
own_after ip resolve (err e) old = old

module _ (db : String) (ip : Netip) where
  decoded-infra :
      (conn : Conn) (resolve : Text → Option (List Text)) (now : Time)
      (r : Result ApiError (List ApiNode)) (s : Syncer)
      → (sync_decoded db conn ip resolve now r s).1.infra ≡ own_after ip resolve r s.infra
  unfolding sync_decoded refresh_infra emit
  decoded-infra conn resolve now (err e) s = refl
  decoded-infra conn resolve now (ok ns) s = store_nodes-infra db conn ip resolve now ns _

  -- behind a syncNodes that got an answer
  pub sync_nodes-infra :
      (conn : Conn) (resolve : Text → Option (List Text)) (nodes : List ApiNode) (now : Time)
      (s : Syncer)
      → (sync_nodes db conn ip resolve (response 200 (some nodes)) now s).1.infra
        ≡ replace (node_addresses ip nodes resolve) s.infra
  unfolding sync_nodes get_json decoded
  sync_nodes-infra conn resolve nodes now s = decoded-infra conn resolve now (ok nodes) s

module _ (db : String) (env : Env) (ip : Netip) (geo : Option (Text → Info)) where
  nodes-infra :
      (r : Round) (s : Syncer)
      → (refresh_nodes db env ip geo r s).infra ≡ own_after ip r.resolve (get_json r.nodes) s.infra
  unfolding refresh_nodes sync_nodes
  nodes-infra r s =
      counted-infra table_nodes _ _
      ∙ decoded-infra db ip r.nodes_conn r.resolve r.nodes_at (get_json r.nodes) s

  users-infra : (r : Round) (s : Syncer) → (refresh_users db env ip geo r s).infra ≡ s.infra
  unfolding refresh_users sync_users
  users-infra r s =
      counted-infra table_users _ _
      ∙ store_result-infra db r.users_conn table_users user_columns
          (users_loop env r.users r.users_at users_fuel 0 [] []) s

  devices-infra : (r : Round) (s : Syncer) → (refresh_devices db env ip geo r s).infra ≡ s.infra
  unfolding refresh_devices sync_devices
  devices-infra r s =
      counted_optional-infra table_hwid_devices _ _
      ∙ store_result-infra db r.devices_conn table_hwid_devices hwid_columns
          (device_rows env r.devices_at (fetch_devices r.devices)) s

  pub parts-infra :
      (r : Round) (s : Syncer)
      → (refresh_devices db env ip geo r
          (refresh_users db env ip geo r (refresh_nodes db env ip geo r s))).infra
        ≡ own_after ip r.resolve (get_json r.nodes) s.infra
  parts-infra r s =
      let named = refresh_nodes db env ip geo r s in
      devices-infra r (refresh_users db env ip geo r named)
      ∙ (users-infra r named ∙ nodes-infra r s)
