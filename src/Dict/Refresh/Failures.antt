-- ===== src/Dict/Refresh/Failures.antt =====
-- A refresh of a dimension that fails stores nothing.
use remnanode_exporter.Panel.Devices.{hwid_columns}
use remnanode_exporter.Dict.Hwid.{fetch_devices, device_rows, sync_devices, DevicesPanel}
use remnanode_exporter.Dict.Nodes.{refresh_infra, sync_decoded, sync_nodes, store_nodes, node_rows}
use remnanode_exporter.Dict.Refresh.Effects.{taken, only, only_none, stored-insert}
use remnanode_exporter.Dict.{
  table_hwid_devices, users_fuel, users_loop, user_columns, ApiError, table_users, get_json, Syncer,
  SyncError, HttpAnswer, UsersPanel, sync_users, sized, store_rows, store_result, table_nodes, emit,
}
use remnanode_exporter.Events.{stored_by, Event, Row, stored}
use remnanode_exporter.Model.{Time}
use remnanode_exporter.Netip.{Netip}
use remnanode_exporter.Panel.{Env, ApiNode, node_columns}
use remnanode_exporter.Sink.{Conn, InsertError, insert}
use remnanode_exporter.Prelude.{
  ℕ, String, ◌≡◌, refl, ap, ◌∙◌, inl, inr, Option, List, [], ◌∷◌, append-nil, arith, ◌==◌,
  Bool-cases, Text, length, Result, ok, err, concat_map-append,
}

-- a call of syncNodes, syncUsers or syncHwidDevices, with the answers that it meets
pub data Refreshing : Type 0 where
  nodes : Conn → Netip → (Text → Option (List Text)) → HttpAnswer (List ApiNode) → Time → Refreshing
  users : Conn → Env → UsersPanel → Time → Refreshing
  devices : Conn → Env → DevicesPanel → Time → Refreshing

abbrev pub call : String → Refreshing → Syncer → Result SyncError (Unit {0}) × Syncer
call db (nodes conn ip resolve answer now) s = sync_nodes db conn ip resolve answer now s
call db (users conn env panel now) s = sync_users db conn env panel now s
call db (devices conn env panel now) s = sync_devices db conn env panel now s

module _ (db : String) (conn : Conn) where
  taken_none :
      (own : String) (cols : List String) (rows : List Row) (x : InsertError)
      → (insert db conn own cols rows).0 ≡ err x
      → taken conn rows ≡ []
  unfolding insert
  taken_none own cols [] x e = cc
  taken_none own cols (row ∷ rows) x e = ground arith

  insert_fails :
      (own : String) (cols : List String) (rows : List Row) (x : InsertError) (table : String)
      → (insert db conn own cols rows).0 ≡ err x
      → stored table (insert db conn own cols rows).1 ≡ []
  insert_fails own cols rows x table e =
      stored-insert db conn own cols rows table
      ∙ (ap (λ l. only own l table) (taken_none own cols rows x e) ∙ only_none own table)

  sized_fails :
      (own : String) (n : ℕ) (r : Result InsertError (Unit {0})) (events : List Event) (s : Syncer)
      (e : SyncError) (table : String)
      → ((x : InsertError) → r ≡ err x → stored table events ≡ [])
      → (sized own n (r, events) s).0 ≡ err e
      → stored table (sized own n (r, events) s).1.log ≡ stored table s.log
  unfolding sized emit
  sized_fails own n (ok u) events s e table none_stored h = cc
  sized_fails own n (err x) events s e table none_stored h =
      simp (concat_map-append, none_stored x refl, append-nil)

  insert-sized_fails :
      (own : String) (cols : List String) (rows : List Row) (n : ℕ) (s : Syncer) (e : SyncError)
      (table : String)
      → (sized own n (insert db conn own cols rows) s).0 ≡ err e
      → stored table (sized own n (insert db conn own cols rows) s).1.log ≡ stored table s.log
  insert-sized_fails own cols rows n s e table h =
      sized_fails own n (insert db conn own cols rows).0 (insert db conn own cols rows).1 s e table
        (λ x k. insert_fails own cols rows x table k) h

  store_result_fails :
      (own : String) (cols : List String) (r : Result SyncError (List Row)) (s : Syncer)
      (e : SyncError) (table : String)
      → (store_result db conn own cols r s).0 ≡ err e
      → stored table (store_result db conn own cols r s).1.log ≡ stored table s.log
  unfolding store_result store_rows
  store_result_fails own cols (err x) s e table h = refl
  store_result_fails own cols (ok rows) s e table h = elim (Bool-cases (length rows == 0)) [
    | inl b ↦ rw b refl
    | inr b ↦ rw b (insert-sized_fails own cols rows (length rows) s e table (rw b at h))
  ]

  nodes_fail :
      (ip : Netip) (resolve : Text → Option (List Text)) (now : Time) (ns : List ApiNode)
      (s : Syncer) (e : SyncError) (table : String)
      → (store_nodes db conn ip resolve now ns s).0 ≡ err e
      → stored table (store_nodes db conn ip resolve now ns s).1.log ≡ stored table s.log
  unfolding store_nodes
  nodes_fail ip resolve now ns s e table h = elim (Bool-cases (length (node_rows now ns) == 0)) [
    | inl b ↦ rw b refl
    | inr b ↦ rw b (
        insert-sized_fails table_nodes node_columns (node_rows now ns) (length (node_rows now ns)) s
          e table (rw b at h))
  ]

  decoded_fails :
      (ip : Netip) (resolve : Text → Option (List Text)) (now : Time)
      (r : Result ApiError (List ApiNode)) (s : Syncer) (e : SyncError) (table : String)
      → (sync_decoded db conn ip resolve now r s).0 ≡ err e
      → stored table (sync_decoded db conn ip resolve now r s).1.log ≡ stored table s.log
  unfolding sync_decoded refresh_infra emit
  decoded_fails ip resolve now (err x) s e table h = refl
  decoded_fails ip resolve now (ok ns) s e table h =
      nodes_fail ip resolve now ns _ e table h
      ∙ (concat_map-append (stored_by table) s.log _ ∙ append-nil _)

-- A refresh of a dimension stores all of it or nothing: when syncNodes, syncUsers or syncHwidDevices
-- returns an error, because the panel failed at any page, a loop did not end, or ClickHouse refused the
-- batch at any point, then no row was stored in any table.
pub call_fails :
    (db : String) (c : Refreshing) (s : Syncer) (e : SyncError) (table : String)
    → (call db c s).0 ≡ err e
    → stored table (call db c s).1.log ≡ stored table s.log
unfolding sync_nodes sync_users sync_devices
call_fails db (nodes conn ip resolve answer now) s e table h =
    decoded_fails db conn ip resolve now (get_json answer) s e table h
call_fails db (users conn env panel now) s e table h =
    store_result_fails db conn table_users user_columns
      (users_loop env panel now users_fuel 0 [] []) s e table h
call_fails db (devices conn env panel now) s e table h =
    store_result_fails db conn table_hwid_devices hwid_columns
      (device_rows env now (fetch_devices panel)) s e table h
