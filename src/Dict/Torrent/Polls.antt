-- ===== src/Dict/Torrent/Polls.antt =====
-- What a poll of one process stores, from its first state on.
use remnanode_exporter.Prelude.{String, refl, inl, inr, Option, List, [], Bool-cases, Text}
use remnanode_exporter.Panel.Devices.{TorrentReport}
use remnanode_exporter.Panel.{Env}
use remnanode_exporter.Geoip.{Info}
use remnanode_exporter.Dict
use remnanode_exporter.Dict.{
  other_error, status_error, has_source, is_out_of_reach, status_error, api, optional_unavailable,
  table_torrent_reports, ApiError, emit, Syncer,
}
use remnanode_exporter.Dict.Torrent.{poll_reports}
use remnanode_exporter.Dict.Torrent.Fresh.{Remembers}
use remnanode_exporter.Dict.Torrent.Stored.{Poll, IsPolled, cursor-IsPolled, idle-IsPolled}

module _ (db : String) (env : Env) (geo : Option (Text → Info)) where
  abbrev pub poll : Poll → Syncer → Syncer
  poll p s = poll_reports db p.conn env geo p.credentials p.latest p.panel s

  pub poll-IsPolled :
      (p : Poll) (written : List TorrentReport) (s : Syncer)
      → Remembers env written s
      → IsPolled db env geo p.panel written s (poll p s)
  unfolding poll_reports
  poll-IsPolled p written s h = elim (Bool-cases p.credentials) [
    | inr e ↦ rw e (idle-IsPolled db env geo p.panel written s s h refl)
    | inl e ↦ rw e (cursor-IsPolled db env geo p s.torrent_resume written s refl h)
  ]

  pub new-Remembers : Remembers env [] Dict.new
  unfolding Dict.new
  new-Remembers = record { timed = tt; kept = tt; started = inr refl }
