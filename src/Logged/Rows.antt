-- ===== src/Logged/Rows.antt =====
-- What holds of every row that the Syncer inserts, from what holds of the row of each kind.
use remnanode_exporter.Dict.{
  api, not_terminated, ApiError, table_users, table_nodes, table_hwid_devices,
  table_torrent_reports, users_loop, fetch_users_page, UsersPanel, SyncError,
}
use remnanode_exporter.Dict.Hwid.{device_rows}
use remnanode_exporter.Dict.Nodes.{node_rows}
use remnanode_exporter.Dict.Refresh.Effects.{rows_of}
use remnanode_exporter.Events.{Row}
use remnanode_exporter.Geoip.{Info}
use remnanode_exporter.Model.{Time}
use remnanode_exporter.Panel.{
  Env, StreamUser, ApiNode, user_row, node_row, user_columns, node_columns,
}
use remnanode_exporter.Panel.Devices.{
  HwidDevice, TorrentReport, hwid_row, torrent_row, hwid_columns, torrent_columns,
}
use remnanode_exporter.Prelude.{
  ℕ, zero, suc, ◌+◌, String, inl, inr, Bool, true, false, Option, List, [], ◌∷◌, map, ltb,
  if◌then◌else◌, Bool-cases, Text, text_eq, All, All-append, Result, ok, err, pos, ltb_ℤ,
}

-- `P` holds of the rows that the Syncer makes
pub record RowLaws (P : String → List String → Row → Type 0) : Type 0 where
  pub of_user :
      (env : Env) (u : StreamUser) (now : Time) → P table_users user_columns (user_row env u now)
  pub of_node : (n : ApiNode) (now : Time) → P table_nodes node_columns (node_row n now)
  pub of_device :
      (env : Env) (d : HwidDevice) (now : Time)
      → P table_hwid_devices hwid_columns (hwid_row env d now)
  pub of_report :
      (env : Env) (r : TorrentReport) (geo : Option (Text → Info))
      → P table_torrent_reports torrent_columns (torrent_row env r geo)

module _ {A : Type 0} (P : Row → Type 0) (f : A → Row) where
  pub All-map : ((a : A) → P (f a)) → (xs : List A) → All P (map f xs)
  All-map h [] = tt
  All-map h (x ∷ xs) = (h x, All-map h xs)

module _ (P : Row → Type 0) where
  answer_holds :
      {B : Type 0} (x : Result ApiError B) (f : B → Result SyncError (List Row))
      → ((b : B) → All P (rows_of (f b)))
      → All P (rows_of (elim x [ ok b ↦ f b | err e ↦ err (api e) ]))
  answer_holds (ok b) f h = h b
  answer_holds (err e) f h = tt

  go_on_holds :
      (a b : Bool) (rows : List Row) (rest : Result SyncError (List Row))
      → All P rows
      → All P (rows_of rest)
      → All P (rows_of (if a then ok rows else if b then err not_terminated else rest))
  go_on_holds true b rows rest h k = h
  go_on_holds false true rows rest h k = tt
  go_on_holds false false rows rest h k = k

module _ (P : String → List String → Row → Type 0) (laws : RowLaws P) where
  pub users_hold :
      (env : Env) (panel : UsersPanel) (now : Time) (fuel page : ℕ) (cursor : Text)
      (rows : List Row)
      → All (P table_users user_columns) rows
      → All (P table_users user_columns) (rows_of (users_loop env panel now fuel page cursor rows))
  unfolding users_loop
  users_hold env panel now zero page cursor rows h = tt
  users_hold env panel now (suc fuel) page cursor rows h =
      let Own : Row → Type 0 = P table_users user_columns in
      answer_holds Own (fetch_users_page panel page cursor) _ (λ (users, next).
        let made = All-map Own (λ u. user_row env u now) (λ u. laws.of_user env u now) users in
        let all = All-append Own rows _ h made in
        go_on_holds Own (text_eq next []) (ltb 10000 page) _ _ all
          (users_hold env panel now fuel (page + 1) next _ all))

  pub nodes_hold :
      (now : Time) (ns : List ApiNode) → All (P table_nodes node_columns) (node_rows now ns)
  unfolding node_rows
  nodes_hold now [] = tt
  nodes_hold now (n ∷ ns) = elim (Bool-cases (ltb_ℤ (pos 0) n.id)) [
    | inl e ↦ rw e (laws.of_node n now, nodes_hold now ns)
    | inr e ↦ rw e (nodes_hold now ns)
  ]

  pub devices_hold :
      (env : Env) (now : Time) (r : Result SyncError (List HwidDevice))
      → All (P table_hwid_devices hwid_columns) (rows_of (device_rows env now r))
  unfolding device_rows
  devices_hold env now (err e) = tt
  devices_hold env now (ok ds) =
      All-map _ (λ d. hwid_row env d now) (λ d. laws.of_device env d now) ds
