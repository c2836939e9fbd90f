-- ===== src/Panel/Fit.antt =====
-- The rows made of the panel's answers and the tables that the schema creates for them.
use remnanode_exporter.Events.{Row}
use remnanode_exporter.Panel.{
  Env, StreamUser, ApiNode, user_row, node_row, user_columns, node_columns,
}
use remnanode_exporter.Panel.Devices.{
  HwidDevice, TorrentReport, hwid_row, torrent_row, hwid_columns, torrent_columns,
}
use remnanode_exporter.Dict.{table_users, table_nodes, table_hwid_devices, table_torrent_reports}
use remnanode_exporter.Geoip.{Info}
use remnanode_exporter.Model.{Time}
use remnanode_exporter.Schema.Tables.{
  Table, fits, matches, column_names, dim_users, dim_nodes, dim_hwid_devices, torrent_reports,
}
use remnanode_exporter.Prelude.{String, ◌≡◌, refl, true, Option, List, Text}

-- the table's name, its columns in order, and a row that fits
abbrev pub FitsAs : Table → String → List String → Row → Type 0
FitsAs t table columns row =
    (table ≡ t.name) × (columns ≡ column_names t) × (fits t.columns row ≡ true)

module _ (env : Env) (now : Time) where
  pub user-FitsAs :
      (u : StreamUser) → FitsAs dim_users table_users user_columns (user_row env u now)
  unfolding user_row fits matches
  user-FitsAs u = (refl, refl, refl)

  pub device-FitsAs :
      (d : HwidDevice)
      → FitsAs dim_hwid_devices table_hwid_devices hwid_columns (hwid_row env d now)
  unfolding hwid_row fits matches
  device-FitsAs d = (refl, refl, refl)

pub node-FitsAs :
    (now : Time) (n : ApiNode) → FitsAs dim_nodes table_nodes node_columns (node_row n now)
unfolding node_row fits matches
node-FitsAs now n = (refl, refl, refl)

pub report-FitsAs :
    (env : Env) (geo : Option (Text → Info)) (r : TorrentReport)
    → FitsAs torrent_reports table_torrent_reports torrent_columns (torrent_row env r geo)
unfolding torrent_row fits matches
report-FitsAs env geo r = (refl, refl, refl)
