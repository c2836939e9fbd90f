-- ===== src/Dict/Refresh/Once.antt =====
-- The refreshes between the polls do not disturb what a poll remembers.
use remnanode_exporter.Dict.Torrent.Young.{IsServed}
use remnanode_exporter.Dict.Torrent.{poll_reports}
use remnanode_exporter.Dict.Refresh.Rounds.{round_rows, parts-Extends}
use remnanode_exporter.Dict.Torrent.Polls.{poll-IsPolled, new-Remembers}
use remnanode_exporter.Dict.Torrent.Stored.{Poll}
use remnanode_exporter.Prelude.{
  String, ◌≡◌, refl, ◌∙◌, inl, inr, Option, List, [], ◌∷◌, ◌++◌, append-nil, map, Bool-cases, Text,
  All,
}
use remnanode_exporter.Dict
use remnanode_exporter.Dict.{table_torrent_reports, Syncer}
use remnanode_exporter.Dict.Refresh.{
  has_credentials, tick, Round, run, run_ticks, Reports, sync_all, Tick, refresh, poll,
}
use remnanode_exporter.Dict.Refresh.Effects.{Extends}
use remnanode_exporter.Dict.Torrent.Fresh.{IsFresh, Remembers, IsKept}
use remnanode_exporter.Events.{stored, Row}
use remnanode_exporter.Geoip.{Info}
use remnanode_exporter.Netip.{Netip}
use remnanode_exporter.Panel.{Env}
use remnanode_exporter.Panel.Devices.{torrent_row, TorrentReport}

IsKept-All :
    (env : Env) (s t : Syncer) (ws : List TorrentReport)
    → t.torrent_since ≡ s.torrent_since
    → t.torrent_stored ≡ s.torrent_stored
    → All (IsKept env s) ws
    → All (IsKept env t) ws
IsKept-All env s t [] e f h = tt
IsKept-All env s t (w ∷ ws) e f (h, hs) = (rw (e, f) h, IsKept-All env s t ws e f hs)

module _ (db : String) (env : Env) (ip : Netip) (geo : Option (Text → Info)) where
  Extends-Remembers :
      (rows : String → List Row) (written : List TorrentReport) (s t : Syncer)
      → Extends rows s t
      → Remembers env written s
      → Remembers env written t
  Extends-Remembers rows written s t x h = record {
    timed = rw x.same_stored h.timed;
    kept = IsKept-All env s t written x.same_since x.same_stored h.kept;
    started = rw x.same_resume h.started;
  }

  module _ (url token : Text) where
    -- a refresh keeps what is remembered, and the table of the reports
    abbrev Keeps : List TorrentReport → Syncer → Syncer → Type 0
    Keeps written s t =
        Remembers env written t
        × (stored table_torrent_reports t.log ≡ stored table_torrent_reports s.log)

    sync_all-Keeps :
        (r : Round) (written : List TorrentReport) (s : Syncer)
        → Remembers env written s
        → Keeps written s (sync_all db env ip geo url token r s)
    unfolding sync_all
    sync_all-Keeps r written s h = elim (Bool-cases (has_credentials url token)) [
      | inr e ↦ rw e (h, refl)
      | inl e ↦
          let x = parts-Extends db env ip geo r s in
          rw e (
            Extends-Remembers (round_rows db env ip geo r) written s _ x h,
            x.gained table_torrent_reports ∙ append-nil _,
          )
    ]

    poll_of : Reports → Poll
    poll_of p = record {
      credentials = has_credentials url token;
      latest = p.latest;
      panel = p.panel;
      conn = p.conn;
    }

    -- What the ticks store in the table of the reports, from one state to another: a refresh nothing,
    -- and a poll one batch, of reports that the panel served to it and that are fresh behind all that
    -- was written before.
    pub data StoresOnce : List TorrentReport → List Tick → Syncer → Syncer → Type 0 where
      ended : {written : List TorrentReport} {s : Syncer} → StoresOnce written [] s s
      refreshed :
          {written : List TorrentReport} {ts : List Tick} {s t : Syncer} (r : Round)
          → stored table_torrent_reports (tick db env ip geo url token (refresh r) s).log
            ≡ stored table_torrent_reports s.log
          → StoresOnce written ts (tick db env ip geo url token (refresh r) s) t
          → StoresOnce written (refresh r ∷ ts) s t
      polled :
          {written : List TorrentReport} {ts : List Tick} {s t : Syncer} (p : Reports)
          (batch : List TorrentReport)
          → stored table_torrent_reports (tick db env ip geo url token (poll p) s).log
            ≡ stored table_torrent_reports s.log ++ map (λ r. torrent_row env r geo) batch
          → All (IsServed p.panel) batch
          → All (IsFresh env written) batch
          → StoresOnce (written ++ batch) ts (tick db env ip geo url token (poll p) s) t
          → StoresOnce written (poll p ∷ ts) s t

    ticks-StoresOnce :
        (ts : List Tick) (written : List TorrentReport) (s : Syncer)
        → Remembers env written s
        → StoresOnce written ts s (run_ticks db env ip geo url token ts s)
    unfolding run_ticks tick poll_of
    ticks-StoresOnce [] written s h = ended
    ticks-StoresOnce (refresh r ∷ ts) written s h =
        let next = sync_all db env ip geo url token r s in
        let (h', e) = sync_all-Keeps r written s h in
        refreshed r e (ticks-StoresOnce ts written next h')
    ticks-StoresOnce (poll p ∷ ts) written s h =
        let next = poll_reports db p.conn env geo (has_credentials url token) p.latest p.panel s in
        let first = poll-IsPolled db env geo (poll_of p) written s h in
        polled p first.batch first.rows_stored first.served first.fresh
          (ticks-StoresOnce ts (written ++ first.batch) next first.remembers)

    -- No poll stores, in a batch that ClickHouse confirms, what an earlier poll of the process
    -- stored in such a batch: with refreshes between the polls of a new Syncer in any order, and
    -- whatever the panel and ClickHouse answer, a refresh leaves torrent_reports as it is, and
    -- what each poll adds are the rows of a batch of reports that stand in answers of the panel to
    -- this very poll, none of which has the id and the time text of a report of an earlier batch,
    -- unless its time lies before Go's zero time.
    pub run-StoresOnce :
        (r : Round) (p : Reports) (ts : List Tick)
        → StoresOnce []
            (refresh r ∷ poll p ∷ ts)
            Dict.new
            (run db env ip geo url token r p ts Dict.new)
    unfolding run
    run-StoresOnce r p ts =
        ticks-StoresOnce (refresh r ∷ poll p ∷ ts) [] Dict.new (new-Remembers db env geo)
