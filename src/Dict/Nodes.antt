-- ===== src/Dict/Nodes.antt =====
-- internal/dict/dict.go: the refresh of dim_nodes and of the set of own addresses.
use remnanode_exporter.Events.{dict_size, Row}
use remnanode_exporter.Sink.{insert, Conn}
use remnanode_exporter.Model.{Time}
use remnanode_exporter.Prelude.{
  String, Option, List, [], ◌∷◌, ltb, ◌==◌, if◌then◌else◌, Text, length, Result, ok, err, pos,
  ltb_ℤ,
}
use remnanode_exporter.Netip.{Netip}
use remnanode_exporter.Infra.{replace, node_addresses, len}
use remnanode_exporter.Panel.{ApiNode, node_row, node_columns}
use remnanode_exporter.Dict.{
  table_nodes, api, sized, get_json, ApiError, emit, no_numeric_ids, Syncer, SyncError, HttpAnswer,
}

-- nodes without a numeric id are left out
unfoldable pub node_rows : Time → List ApiNode → List Row
node_rows now [] = []
node_rows now (n ∷ ns) =
    if ltb_ℤ (pos 0) n.id then node_row n now ∷ node_rows now ns else node_rows now ns

module _ (db : String) (conn : Conn) (ip : Netip) (resolve : Text → Option (List Text)) where
  unfoldable pub store_nodes : Time → List ApiNode → Syncer → Result SyncError (Unit {0}) × Syncer
  unfolding node_rows
  store_nodes now nodes s =
      let rows = node_rows now nodes in
      if length rows == 0
      then ((if ltb 0 (length nodes) then err (no_numeric_ids (length nodes)) else ok tt), s)
      else sized table_nodes (length rows) (insert db conn table_nodes node_columns rows) s

  -- s.infra.replace and the gauge behind it
  unfoldable pub refresh_infra : List ApiNode → Syncer → Syncer
  refresh_infra nodes s =
      let set = replace (node_addresses ip nodes resolve) s.infra in
      emit (dict_size "infra_ips" (len set) ∷ []) (record s { infra = set })

  unfoldable pub sync_decoded :
      Time → Result ApiError (List ApiNode) → Syncer → Result SyncError (Unit {0}) × Syncer
  sync_decoded now (err e) s = (err (api e), s)
  sync_decoded now (ok nodes) s = store_nodes now nodes (refresh_infra nodes s)

  -- syncNodes
  unfoldable pub sync_nodes :
      HttpAnswer (List ApiNode) → Time → Syncer → Result SyncError (Unit {0}) × Syncer
  unfolding sync_decoded
  sync_nodes answer now s = sync_decoded now (get_json answer) s
