-- ===== src/Dict/Refresh.antt =====
-- internal/dict/dict.go: Run and syncAll. What the panel, ClickHouse and the clock give to one round
-- is a record, and the rounds that the tickers start are a list.
pub mod Effects
pub mod Failures
pub mod Polled
pub mod Once
pub mod Own
pub mod Rounds
pub mod Tables
use remnanode_exporter.Prelude.{
  String, Bool, true, false, not, ◌&&◌, Option, List, [], ◌∷◌, if◌then◌else◌, Text, text_eq, Result,
  ok, err,
}
use remnanode_exporter.Dict.{
  emit, Syncer, SyncError, HttpAnswer, UsersPanel, sync_users, optional_unavailable, table_users,
  table_nodes, table_hwid_devices,
}
use remnanode_exporter.Dict.Nodes.{sync_nodes}
use remnanode_exporter.Dict.Hwid.{sync_devices, DevicesPanel}
use remnanode_exporter.Dict.Torrent.{poll_reports, ReportsPanel}
use remnanode_exporter.Events.{dict_errors}
use remnanode_exporter.Netip.{Netip}
use remnanode_exporter.Panel.{Env, ApiNode}
use remnanode_exporter.Geoip.{Info}
use remnanode_exporter.Sink.{Conn}
use remnanode_exporter.Model.{Time}

-- one call of syncAll: the answers of the panel and of the resolver of names, the times at which the
-- three parts run, and ClickHouse at each of them
pub record Round : Type 0 where
  pub nodes : HttpAnswer (List ApiNode)
  pub resolve : Text → Option (List Text)
  pub nodes_at : Time
  pub nodes_conn : Conn
  pub users : UsersPanel
  pub users_at : Time
  pub users_conn : Conn
  pub devices : DevicesPanel
  pub devices_at : Time
  pub devices_conn : Conn

-- one call of pollTorrentReports
pub record Reports : Type 0 where
  pub latest : Option Time
  pub panel : ReportsPanel
  pub conn : Conn

-- a tick of one of the two tickers of Run
pub data Tick : Type 0 where
  refresh : Round → Tick
  poll : Reports → Tick

-- hasCredentials
unfoldable pub has_credentials : Text → Text → Bool
has_credentials url token = not (text_eq url []) && not (text_eq token [])

-- the counter behind an error of syncNodes and of syncUsers
unfoldable pub counted : String → Result SyncError (Unit {0}) × Syncer → Syncer
counted table (ok u, s) = s
counted table (err e, s) = emit (dict_errors table ∷ []) s

-- the one behind an error of syncHwidDevices
unfoldable pub counted_unless : String → Bool × Syncer → Syncer
counted_unless table (true, s) = s
counted_unless table (false, s) = emit (dict_errors table ∷ []) s

unfoldable pub counted_optional : String → Result SyncError (Unit {0}) × Syncer → Syncer
unfolding counted_unless
counted_optional table (ok u, s) = s
counted_optional table (err e, s) = counted_unless table (optional_unavailable "HWID devices" e s)

module _ (db : String) (env : Env) (ip : Netip) (geo : Option (Text → Info)) where
  -- the three parts of syncAll
  unfoldable pub refresh_nodes : Round → Syncer → Syncer
  refresh_nodes r s =
      counted table_nodes (sync_nodes db r.nodes_conn ip r.resolve r.nodes r.nodes_at s)

  unfoldable pub refresh_users : Round → Syncer → Syncer
  refresh_users r s = counted table_users (sync_users db r.users_conn env r.users r.users_at s)

  unfoldable pub refresh_devices : Round → Syncer → Syncer
  refresh_devices r s =
      counted_optional table_hwid_devices
        (sync_devices db r.devices_conn env r.devices r.devices_at s)

  module _ (url token : Text) where
    -- syncAll
    unfoldable pub sync_all : Round → Syncer → Syncer
    sync_all r s =
        if not (has_credentials url token)
        then s
        else refresh_devices r (refresh_users r (refresh_nodes r s))

    unfoldable pub tick : Tick → Syncer → Syncer
    tick (refresh r) s = sync_all r s
    tick (poll p) s = poll_reports db p.conn env geo (has_credentials url token) p.latest p.panel s

    -- the loop of Run
    unfoldable pub run_ticks : List Tick → Syncer → Syncer
    unfolding tick
    run_ticks [] s = s
    run_ticks (t ∷ ts) s = run_ticks ts (tick t s)

    -- Run, behind the two preflights, which change nothing
    unfoldable pub run : Round → Reports → List Tick → Syncer → Syncer
    unfolding run_ticks
    run r p ts s = run_ticks (refresh r ∷ poll p ∷ ts) s
