-- ===== src/Dict/Refresh/Rounds.antt =====
-- What one call of syncAll adds to each table.
use remnanode_exporter.Prelude.{
  String, ◌≡◌, refl, sym, ◌∙◌, inl, inr, true, Option, List, [], ◌∷◌, ◌++◌, append-nil, arith, ◌==◌,
  Bool-cases, Text, length, Result, ok, err, concat_map-append,
}
use remnanode_exporter.Dict.{
  Syncer, ApiError, emit, get_json, users_loop, users_fuel, sync_users, table_users, table_nodes,
  table_hwid_devices,
}
use remnanode_exporter.Dict.Hwid.{sync_devices, device_rows, fetch_devices}
use remnanode_exporter.Dict.Nodes.{sync_nodes, sync_decoded, store_nodes, refresh_infra, node_rows}
use remnanode_exporter.Dict.Refresh.{Round, refresh_nodes, refresh_users, refresh_devices}
use remnanode_exporter.Dict.Refresh.Effects.{
  only_none, Extends, only, taken, rows_of, store_result-Extends, counted-Extends,
  counted_optional-Extends, trans-Extends, insert-Extends,
}
use remnanode_exporter.Events.{Row}
use remnanode_exporter.Geoip.{Info}
use remnanode_exporter.Model.{Time}
use remnanode_exporter.Netip.{Netip}
use remnanode_exporter.Panel.{Env, user_columns, ApiNode, node_columns}
use remnanode_exporter.Panel.Devices.{hwid_columns}
use remnanode_exporter.Sink.{Conn}

abbrev pub rows_of_nodes : Time → Result ApiError (List ApiNode) → List Row
rows_of_nodes now (ok nodes) = node_rows now nodes
rows_of_nodes now (err e) = []

module _ (db : String) (env : Env) (ip : Netip) (geo : Option (Text → Info)) where
  emptied : (conn : Conn) (rows : List Row) → (length rows == 0) ≡ true → taken conn rows ≡ []
  emptied conn [] h = ground arith
  emptied conn (row ∷ rows) h = ground arith

  idle-Extends :
      (conn : Conn) (rows : List Row) (s : Syncer)
      → (length rows == 0) ≡ true
      → Extends (only table_nodes (taken conn rows)) s s
  idle-Extends conn rows s h = record {
    same_since = refl;
    same_resume = refl;
    same_stored = refl;
    gained = λ table. rw (emptied conn rows h, only_none table_nodes table) (sym (append-nil _));
  }

  store_nodes-Extends :
      (conn : Conn) (resolve : Text → Option (List Text)) (now : Time) (nodes : List ApiNode)
      (s : Syncer)
      → Extends
          (only table_nodes (taken conn (node_rows now nodes)))
          s
          (store_nodes db conn ip resolve now nodes s).1
  unfolding store_nodes
  store_nodes-Extends conn resolve now nodes s =
      elim (Bool-cases (length (node_rows now nodes) == 0)) [
        | inl e ↦ rw e (idle-Extends conn (node_rows now nodes) s e)
        | inr e ↦ rw e (
            insert-Extends db conn table_nodes node_columns (node_rows now nodes)
              (length (node_rows now nodes)) s)
      ]

  decoded-Extends :
      (conn : Conn) (resolve : Text → Option (List Text)) (now : Time)
      (answer : Result ApiError (List ApiNode)) (s : Syncer)
      → Extends
          (only table_nodes (taken conn (rows_of_nodes now answer)))
          s
          (sync_decoded db conn ip resolve now answer s).1
  unfolding sync_decoded
  decoded-Extends conn resolve now (err e) s = idle-Extends conn [] s refl
  decoded-Extends conn resolve now (ok nodes) s =
      let h =
        store_nodes-Extends conn resolve now nodes (refresh_infra db conn ip resolve nodes s) in
      unfold refresh_infra emit in
      record {
        same_since = h.same_since;
        same_resume = h.same_resume;
        same_stored = h.same_stored;
        gained = λ table. h.gained table ∙ simp (concat_map-append, append-nil);
      }

  -- syncAll gains the rows of its three parts, in the order in which they run
  abbrev pub round_rows : Round → String → List Row
  round_rows r table =
      (only table_nodes (taken r.nodes_conn (rows_of_nodes r.nodes_at (get_json r.nodes))) table
        ++ only table_users
            (taken r.users_conn (rows_of (users_loop env r.users r.users_at users_fuel 0 [] [])))
            table)
      ++ only table_hwid_devices
          (taken r.devices_conn (rows_of (device_rows env r.devices_at (fetch_devices r.devices))))
          table

  pub parts-Extends :
      (r : Round) (s : Syncer)
      → Extends (round_rows r) s (
          refresh_devices db env ip geo r
            (refresh_users db env ip geo r (refresh_nodes db env ip geo r s)))
  unfolding refresh_nodes refresh_users refresh_devices sync_nodes sync_users sync_devices
  parts-Extends r s =
      let nodes = refresh_nodes db env ip geo r s in
      let users = refresh_users db env ip geo r nodes in
      trans-Extends _ _ s users _
        (trans-Extends _ _ s nodes users
          (counted-Extends _ table_nodes s _ _
            (decoded-Extends r.nodes_conn r.resolve r.nodes_at (get_json r.nodes) s))
          (counted-Extends _ table_users nodes _ _ (
            store_result-Extends db r.users_conn table_users user_columns
              (users_loop env r.users r.users_at users_fuel 0 [] []) nodes)))
        (counted_optional-Extends _ table_hwid_devices users _ _ (
          store_result-Extends db r.devices_conn table_hwid_devices hwid_columns
            (device_rows env r.devices_at (fetch_devices r.devices)) users))
