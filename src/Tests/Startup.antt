-- ===== src/Tests/Startup.antt =====
-- Runs of cmd/remnanode-exporter/main.go at concrete answers.
use remnanode_exporter.Prelude.{
  ◌≡◌, refl, ◌↔◌, true, false, none, some, [], ◌∷◌, codes, length, ok, err, pos, ◌<ℤ◌,
}
use remnanode_exporter.Command.Startup.{returned, World, task_failed, run, worker_options}
use remnanode_exporter.Command.Startup.Exits.{IsServed, run-Exits}
use remnanode_exporter.Command.Startup.Release.{IsClean}
use remnanode_exporter.Command.Startup.Limits.{load_rows-lt}
use remnanode_exporter.Config.{
  Environ, load, settings, validate, env, env_list, env_int, env_bool, env_duration, set_or,
  seconds,
}
use remnanode_exporter.Consumer.{Decoder, RoundEnv, new_worker, after_read}
use remnanode_exporter.Consumer.Delivery.Runs.{new_worker-IsSound}
use remnanode_exporter.Model.{bad_users_json}
use remnanode_exporter.Sink.Connect.{Dial}

abbrev os : Environ
os = record { lookup_env = λ key. none; hostname = []; parse_duration = λ t. some (seconds 60) }

abbrev dial : Dial
dial = record { opens = true; pings = true; executes = true }

-- everything answers, and then a worker fails
abbrev world : World
world = record {
  os = os;
  tries = record { dial = dial; cancelled = false; interrupted = false } ∷ [];
  dial = dial;
  files = some [];
  exec = λ stmt. true;
  parses_url = λ url. true;
  pings = record { succeeds = true; cancelled = false; interrupted = false } ∷ [];
  ending = task_failed (codes "NOAUTH");
}

run-Exits_example : (((run world).0 ≡ returned (ok tt)) ↔ IsServed world) × IsClean [] (run world)
run-Exits_example = run-Exits world

loaded : load os ≡ ok (settings os)
unfolding load validate settings env env_list env_int env_bool env_duration set_or
loaded = refl

abbrev decoder : Decoder
decoder = record { stream = "s"; table = "t"; columns = []; decode = λ f. err bad_users_json }

abbrev round_env : RoundEnv
round_env = record {
  flush_check = pos 1;
  flush_env = record {
    conn = record { prepares = true; accepts = λ row. true; sends = false };
    acks_ok = true;
    now = pos 2;
  };
  lag_check = pos 3;
  lag = none;
}

load_rows-lt_example :
    pos (
      length
        (after_read "db" decoder
          (worker_options (settings os))
          round_env
          (some 0, new_worker (pos 0))).rows)
    <ℤ (settings os).flush_max_rows
load_rows-lt_example =
    load_rows-lt os (settings os) "db" decoder (λ msg. Unit) round_env 0 (new_worker (pos 0)) loaded
      (new_worker-IsSound decoder (λ msg. Unit) (pos 0))
