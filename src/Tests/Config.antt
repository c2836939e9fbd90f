-- ===== src/Tests/Config.antt =====
-- Runs of internal/config and internal/sink at concrete settings.
use remnanode_exporter.Config.Spelled.{IsSpelled}
use remnanode_exporter.Prelude.{◌≡◌, refl, none, some, ◌∷◌, codes, ok, negsuc}
use remnanode_exporter.Config.{
  Environ, load, settings, validate, env, env_list, env_int, env_bool, env_duration, set_or,
  seconds,
}
use remnanode_exporter.Config.Loaded.{IsValid, load_ok_iff, load-set_var_claim, set_var}

-- nothing is set, and every duration is a minute
abbrev os : Environ
os = record {
  lookup_env = λ key. none;
  hostname = codes "h";
  parse_duration = λ t. some (seconds 60);
}

loaded : load os ≡ ok (settings os)
unfolding load validate settings env env_list env_int env_bool env_duration set_or
loaded = refl

load_ok_iff_example : IsValid (settings os) × IsSpelled os (settings os)
load_ok_iff_example = (load_ok_iff os (settings os)).0 loaded

-- REDIS_CLAIM_MIN_IDLE set to a text that spells minus one nanosecond
abbrev negative_os : Environ
negative_os = record os { parse_duration = λ t. some (negsuc 0) }

negative_loaded : load negative_os ≡ ok (settings negative_os)
unfolding load validate settings env env_list env_int env_bool env_duration set_or
negative_loaded = refl

load-set_var_claim_example :
    load (set_var "REDIS_CLAIM_MIN_IDLE" (b'-' ∷ codes "1ns") negative_os)
    ≡ ok (record (settings negative_os) { claim_min_idle = negsuc 0 })
load-set_var_claim_example =
    load-set_var_claim negative_os (settings negative_os) b'-' (codes "1ns") (negsuc 0)
      negative_loaded refl
