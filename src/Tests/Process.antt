-- ===== src/Tests/Process.antt =====
-- Runs of the parts together: their logs, their counters, and a refresh behind a decoder.
use remnanode_exporter.Strconv.{scan, parse_uint}
use remnanode_exporter.Panel.{ApiNode}
use remnanode_exporter.Consumer.Decoders.Flags.{refresh-decode-Flags, Each, Flags, IsOwn}
use remnanode_exporter.Consumer.Decoders.{user_usage_decoder, node_connections_decode}
use remnanode_exporter.Consumer.{run_loop}
use remnanode_exporter.Dict
use remnanode_exporter.Dict.Nodes.{sync_nodes}
use remnanode_exporter.Dict.{response}
use remnanode_exporter.Events.{stored, Row}
use remnanode_exporter.Geoip.{no_info}
use remnanode_exporter.Infra.{contains}
use remnanode_exporter.Logged.Process.{WorkerRun, SyncerRun, process_log}
use remnanode_exporter.Logged.Tables.{BatchFits, process-BatchFits, usage_stream}
use remnanode_exporter.Metrics.Reads.{Counts, run_loop-Counts}
use remnanode_exporter.Consumer.Entries.{taken_in}
use remnanode_exporter.Metrics.Rows.{process-CountsRows}
use remnanode_exporter.Metrics.{counter, rows_inserted_opts}
use remnanode_exporter.Model.{
  or_missing, or_fail, field_str, value_str, get_field, time, uint, required, check_version,
  conn_ips, conn_users, parse_node_connections, ConnUser,
}
use remnanode_exporter.Tests.Consumer.{decoder, options, rounds, held}
use remnanode_exporter.Tests.Model.{codec, connection_fields, connections}
use remnanode_exporter.Tests.Refresh.{node}
use remnanode_exporter.Tests.Refresh as Refresh
use remnanode_exporter.Tests.Torrent.{env, netip, round, reports, ticks, conn}
use remnanode_exporter.Prelude.{
  ◌≡◌, refl, none, some, List, [], ◌∷◌, codes, length, concat_map, All, ok, pos,
}

abbrev worker : WorkerRun
worker = record {
  dec = user_usage_decoder codec;
  opt = options;
  started = pos 0;
  group = none;
  recovery = [];
  rounds = rounds;
}

abbrev syncer : SyncerRun
syncer = record {
  env = env;
  ip = netip;
  geo = none;
  url = codes "http://p";
  token = codes "t";
  first_round = round;
  first_reports = reports;
  ticks = ticks;
}

process-CountsRows_example :
    counter rows_inserted_opts "user_usage" (process_log "db" (worker ∷ []) syncer)
    ≡ length (stored "user_usage" (process_log "db" (worker ∷ []) syncer))
process-CountsRows_example = process-CountsRows "db" (worker ∷ []) syncer "user_usage"

process-BatchFits_example : All BatchFits (process_log "db" (worker ∷ []) syncer)
process-BatchFits_example =
    process-BatchFits "db" (worker ∷ []) syncer (usage_stream codec refl, tt)

run_loop-Counts_example :
    Counts decoder (taken_in rounds) held.log (run_loop "db" decoder options rounds held).log
run_loop-Counts_example = run_loop-Counts decoder "db" options rounds held

-- a node at the address of the connection
abbrev own_node : ApiNode
own_node = record node { ips = codes "1.2.3.4" ∷ [] }

refresh-decode-Flags_example :
    let set =
      (sync_nodes "db" conn Refresh.netip
        (λ host. none)
        (response 200 (some (own_node ∷ [])))
        (pos 9)
        Dict.new).1.infra in
    (rows : List Row) × (node_connections_decode codec
        (λ t. no_info)
        (some (contains Refresh.netip (some set)))
        connection_fields
      ≡ ok rows)
    × Each
        (Flags (IsOwn Refresh.netip (λ host. none) (own_node ∷ [])))
        (concat_map (λ (u : ConnUser). u.ips) connections.users)
        rows
unfolding parse_node_connections conn_users conn_ips check_version required uint time get_field
    value_str field_str or_fail or_missing parse_uint scan
refresh-decode-Flags_example =
    refresh-decode-Flags Refresh.netip "db" conn (λ host. none) (own_node ∷ []) (pos 9) Dict.new
      codec (λ t. no_info) connection_fields connections refl
