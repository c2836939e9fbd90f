-- ===== src/Dict/Refresh/Tables.antt =====
-- The tables behind any number of ticks of Run.
use remnanode_exporter.Dict.Torrent.{poll_reports}
use remnanode_exporter.Prelude.{
  String, ◌≡◌, refl, ap, ◌∙◌, inl, inr, Bool, Option, List, [], ◌∷◌, ◌++◌, append-nil,
  if◌then◌else◌, Bool-cases, Text,
}
use remnanode_exporter.Dict.{
  Syncer, get_json, users_loop, users_fuel, table_users, table_nodes, table_hwid_devices,
}
use remnanode_exporter.Dict.Hwid.{device_rows, fetch_devices}
use remnanode_exporter.Dict.Refresh.{
  Round, Reports, Tick, refresh, poll, has_credentials, sync_all, tick, run_ticks, run,
}
use remnanode_exporter.Dict.Refresh.Effects.{taken, rows_of}
use remnanode_exporter.Dict.Refresh.Polled.{poll_reports-Others}
use remnanode_exporter.Dict.Refresh.Own.{own_after, parts-infra, poll_reports-infra}
use remnanode_exporter.Infra.{IpSet}
use remnanode_exporter.Events.{Row, stored}
use remnanode_exporter.Geoip.{Info}
use remnanode_exporter.Netip.{Netip}
use remnanode_exporter.Panel.{Env}
use remnanode_exporter.Dict.Refresh.Rounds.{rows_of_nodes, parts-Extends}

-- the dimension tables, and the set of the panel's own addresses
pub record Tables : Type 0 where
  pub nodes : List Row
  pub users : List Row
  pub devices : List Row
  pub own : IpSet

-- what ClickHouse holds of a Syncer, and its set
abbrev pub tables_of : Syncer → Tables
tables_of s = record {
  nodes = stored table_nodes s.log;
  users = stored table_users s.log;
  devices = stored table_hwid_devices s.log;
  own = s.infra;
}

tables_eq :
    (t u : Tables)
    → t.nodes ≡ u.nodes
    → t.users ≡ u.users
    → t.devices ≡ u.devices
    → t.own ≡ u.own
    → t ≡ u
tables_eq t u p q r o = λ i. record { nodes = p i; users = q i; devices = r i; own = o i }

module _ (db : String) (env : Env) (ip : Netip) (geo : Option (Text → Info)) where
  -- one round on the tables alone: each of them by its own answers
  abbrev pub grow : Round → Tables → Tables
  grow r t = record {
    nodes = t.nodes ++ taken r.nodes_conn (rows_of_nodes r.nodes_at (get_json r.nodes));
    users =
        t.users
        ++ taken r.users_conn (rows_of (users_loop env r.users r.users_at users_fuel 0 [] []));
    devices =
        t.devices
        ++ taken r.devices_conn (rows_of (device_rows env r.devices_at (fetch_devices r.devices)));
    own = own_after ip r.resolve (get_json r.nodes) t.own;
  }

  abbrev pub grow_all : Bool → List Tick → Tables → Tables
  grow_all credentials [] t = t
  grow_all credentials (poll p ∷ ts) t = grow_all credentials ts t
  grow_all credentials (refresh r ∷ ts) t =
      grow_all credentials ts (if credentials then grow r t else t)

  module _ (url token : Text) where
    round_tables :
        (r : Round) (s : Syncer)
        → tables_of (sync_all db env ip geo url token r s)
          ≡ (if has_credentials url token then grow r (tables_of s) else tables_of s)
    unfolding sync_all
    round_tables r s = elim (Bool-cases (has_credentials url token)) [
      | inr e ↦ rw e refl
      | inl e ↦
          let h = parts-Extends db env ip geo r s in
          rw e (
            tables_eq _ (grow r (tables_of s)) (h.gained table_nodes ∙ simp append-nil)
              (h.gained table_users ∙ simp append-nil) (h.gained table_hwid_devices)
              (parts-infra db env ip geo r s))
    ]

    poll_tables :
        (p : Reports) (s : Syncer)
        → tables_of (poll_reports db p.conn env geo (has_credentials url token) p.latest p.panel s)
          ≡ tables_of s
    poll_tables p s =
        let h =
          poll_reports-Others db p.conn env geo (has_credentials url token) p.latest p.panel s in
        tables_eq _ (tables_of s) (h table_nodes refl) (h table_users refl)
          (h table_hwid_devices refl)
          (poll_reports-infra db p.conn env geo (has_credentials url token) p.latest p.panel s)

    ticks_tables :
        (ts : List Tick) (s : Syncer)
        → tables_of (run_ticks db env ip geo url token ts s)
          ≡ grow_all (has_credentials url token) ts (tables_of s)
    unfolding run_ticks tick
    ticks_tables [] s = refl
    ticks_tables (refresh r ∷ ts) s =
        ticks_tables ts (sync_all db env ip geo url token r s)
        ∙ ap (grow_all (has_credentials url token) ts) (round_tables r s)
    ticks_tables (poll p ∷ ts) s =
        ticks_tables ts
          (poll_reports db p.conn env geo (has_credentials url token) p.latest p.panel s)
        ∙ ap (grow_all (has_credentials url token) ts) (poll_tables p s)

    -- Run refines the specification on the tables and the address set alone: behind any number of ticks,
    -- each dimension table holds what it held before and, for each refresh in turn, the rows that its
    -- own requests gave, if they gave rows and ClickHouse took the batch, whatever became of the other
    -- parts and of the polls; and the set of own addresses is that of the last refresh whose request
    -- for the nodes was answered. Without credentials all of it is what it was before.
    pub run-grow_all :
        (r : Round) (p : Reports) (ts : List Tick) (s : Syncer)
        → tables_of (run db env ip geo url token r p ts s)
          ≡ grow_all (has_credentials url token) (refresh r ∷ ts) (tables_of s)
    unfolding run
    run-grow_all r p ts s = ticks_tables (refresh r ∷ poll p ∷ ts) s
