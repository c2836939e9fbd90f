-- ===== src/Tests/Torrent.antt =====
-- Runs of internal/dict/torrent.go at concrete polls.
use remnanode_exporter.Dict.Torrent.{poll_reports}
use remnanode_exporter.Dict.Torrent.Complete.{IsNewestFirst, serve}
use remnanode_exporter.Dict.Torrent.Served.{
  none_left, IsRecent, IsRemembered, pass_old, pass_stored, pick, Picks, poll_reports_complete,
}
use remnanode_exporter.Events.{Row, stored}
use remnanode_exporter.Sink.Outcome.{Answers}
use remnanode_exporter.Dict.Refresh.{Round, Reports, Tick, refresh, poll, run, has_credentials}
use remnanode_exporter.Dict.Refresh.Once.{run-StoresOnce, StoresOnce}
use remnanode_exporter.Dict.Refresh.Tables.{tables_of, grow_all, run-grow_all}
use remnanode_exporter.Netip.{Netip}
use remnanode_exporter.Sink.{Conn}
use remnanode_exporter.Dict.{Syncer, table_torrent_reports, transport_error, response}
use remnanode_exporter.Panel.Devices.{TorrentReport, torrent_columns}
use remnanode_exporter.Panel.{parse_time, time_or_epoch, Env}
use remnanode_exporter.Prelude.{
  ℕ, ◌*◌, String, ◌≡◌, refl, inl, inr, true, none, some, List, [], ◌∷◌, ◌++◌, map, arith, codes,
  length, All, pos, ◌-ℤ◌, -ℤ_parts,
}
use remnanode_exporter.Dict
use remnanode_exporter.Dict.Torrent.Stored.{row_of}

abbrev pub env : Env
env = record { wide = λ w f. 0; time_parse = λ t. some (pos (length t)) }

abbrev report : ℕ → TorrentReport
report n = record {
  id = pos n;
  user_id = pos 1;
  node_id = pos 2;
  blocked = true;
  ip = codes "1.1.1.1";
  block_duration = record { numerator = pos 600; shift = 0 };
  protocol = none;
  network = codes "tcp";
  destination = codes "example.org";
  inbound_tag = none;
  outbound_tag = none;
  created_at = codes "2026";
}

-- three reports, newest first by the length of their time texts
abbrev at_time : ℕ → String → TorrentReport
at_time n created = record (report n) { created_at = codes created }

abbrev timed_env : Env
timed_env = record { wide = λ w f. 0; time_parse = λ t. some (pos (length t * 100000000000)) }

abbrev all_reports : List TorrentReport
all_reports = at_time 3 "20261" ∷ at_time 2 "2026" ∷ at_time 1 "2" ∷ []

newest_first : IsNewestFirst timed_env all_reports
unfolding parse_time time_or_epoch
newest_first = ((omega arith, (omega arith, tt)), ((omega arith, tt), (tt, tt)))

abbrev pub netip : Netip
netip = record { parse_addr = λ t. none; show_addr = λ a. [] }

abbrev pub conn : Conn
conn = record { prepares = true; accepts = λ row. true; sends = true }

-- a panel with a node, no users, and no devices
abbrev pub round : Round
round = record {
  nodes = response 200 (
      some (
        record {
          id = pos 4;
          uuid = codes "u";
          name = codes "n";
          country_code = codes "DE";
          address = codes "node.example.org";
          tags = none;
          provider = none;
          ips = [];
        }
        ∷ []));
  resolve = λ host. none;
  nodes_at = pos 1;
  nodes_conn = conn;
  users = λ page cursor. response 403 none;
  users_at = pos 2;
  users_conn = conn;
  devices = λ page start size. transport_error;
  devices_at = pos 3;
  devices_conn = conn;
}

abbrev pub reports : Reports
reports = record {
  latest = some (pos 0);
  panel =
      λ start size. response 200 (some (record { records = report 1 ∷ report 2 ∷ []; total = 2 }));
  conn = conn;
}

abbrev pub ticks : List Tick
ticks = poll reports ∷ refresh round ∷ poll reports ∷ []

run-StoresOnce_example :
    StoresOnce "db" env netip none
      (codes "http://p")
      (codes "t")
      []
      (refresh round ∷ poll reports ∷ ticks)
      Dict.new
      (run "db" env netip none (codes "http://p") (codes "t") round reports ticks Dict.new)
run-StoresOnce_example =
    run-StoresOnce "db" env netip none (codes "http://p") (codes "t") round reports ticks

run-grow_all_example :
    tables_of (run "db" env netip none (codes "http://p") (codes "t") round reports ticks Dict.new)
    ≡ grow_all "db" env netip none true (refresh round ∷ ticks) (tables_of Dict.new)
unfolding has_credentials
run-grow_all_example =
    run-grow_all "db" env netip none (codes "http://p") (codes "t") round reports ticks Dict.new

-- the cursor is at the newest report, and the second one was stored
abbrev resumed : Syncer
resumed = record Dict.new {
  torrent_since = pos 500000000000;
  torrent_resume = true;
  torrent_stored = (record { id = pos 2; created_at = codes "2026" }, pos 400000000000) ∷ [];
}

takes_rows : (rows : List Row) → All (λ row. conn.accepts row ≡ true) rows
takes_rows [] = tt
takes_rows (row ∷ rows) = (refl, takes_rows rows)

takes_any : (rows : List Row) → Answers "db" conn table_torrent_reports torrent_columns rows
takes_any rows = (refl, takes_rows rows, refl)

cutoff : pos 500000000000 -ℤ pos 120000000000 ≡ pos 380000000000
unfolding ◌-ℤ◌
cutoff = refl

third_new : ¬ IsRemembered resumed.torrent_stored (at_time 3 "20261")
third_new (inl (a, b)) = ground arith
third_new (inr z) = z

first_old : ¬ IsRecent timed_env (pos 500000000000) (at_time 1 "2")
unfolding parse_time time_or_epoch
first_old (inl e) = ground arith
first_old (inr h) = omega (arith, -ℤ_parts (pos 500000000000) (pos 120000000000), h)

third-IsRecent : IsRecent timed_env (pos 500000000000) (at_time 3 "20261")
unfolding parse_time time_or_epoch
third-IsRecent = inr (rw cutoff (omega arith))

-- the third report is new, the second one stored, the first one too old
only_third :
    Picks timed_env (pos 500000000000) resumed.torrent_stored all_reports (at_time 3 "20261" ∷ [])
only_third = pick (at_time 3 "20261") third-IsRecent third_new (
    pass_stored (at_time 2 "2026") (inl (refl, refl))
      (pass_old (at_time 1 "2") first_old none_left))

poll_reports_complete_example :
    stored table_torrent_reports
      (poll_reports "db" conn timed_env none true none (serve all_reports) resumed).log
    ≡ stored table_torrent_reports resumed.log
      ++ row_of "db" timed_env none (at_time 3 "20261") ∷ []
poll_reports_complete_example =
    poll_reports_complete "db" conn timed_env none all_reports (at_time 3 "20261" ∷ []) none resumed
      refl newest_first (omega arith) only_third
      (takes_any (map (row_of "db" timed_env none) (at_time 3 "20261" ∷ [])))
