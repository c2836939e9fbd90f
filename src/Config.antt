-- ===== src/Config.antt =====
-- internal/config/config.go: the settings that Load reads from the environment, and what it refuses.
pub mod Loaded
pub mod Readers
pub mod Spelled
use remnanode_exporter.Strconv.{atoi, NumError}
use remnanode_exporter.Prelude.{
  ℕ, ◌*◌, String, Bool, true, false, ◌||◌, Option, none, some, List, [], ◌∷◌, ◌==◌, if◌then◌else◌,
  Text, codes, text_eq, length, Result, ok, err, ℤ, pos, leb_ℤ,
}
use remnanode_exporter.Strings.{trim_right, trim_space, split}

-- os.LookupEnv, os.Hostname (empty for an error) and time.ParseDuration (`none` for an error)
pub record Environ : Type 0 where
  pub lookup_env : String → Option Text
  pub hostname : Text
  pub parse_duration : Text → Option ℤ

-- a duration or a count of the source is an int64, a time.Duration in nanoseconds
pub record Config : Type 0 where
  pub redis_url : Text
  pub redis_group : Text
  pub redis_consumer : Text
  pub redis_block : ℤ
  pub redis_batch : ℤ
  pub start_from_beginning : Bool
  pub claim_min_idle : ℤ
  pub clickhouse_addrs : List Text
  pub clickhouse_db : Text
  pub clickhouse_user : Text
  pub clickhouse_password : Text
  pub flush_interval : ℤ
  pub flush_max_rows : ℤ
  pub geoip_city_path : Text
  pub geoip_asn_path : Text
  pub geoip_reload : ℤ
  pub api_url : Text
  pub api_token : Text
  pub dict_refresh : ℤ
  pub torrent_poll : ℤ
  pub metrics_addr : Text
  pub log_level : Text

-- the errors of Load, in the order of its tests
pub data ConfigError : Type 0 where
  bad_redis_batch bad_flush_max_rows bad_flush_interval : ConfigError
  no_clickhouse_addr bad_dict_refresh bad_torrent_poll : ConfigError

abbrev pub seconds : ℕ → ℤ
seconds n = pos (n * 1000000000)

unfoldable pub or_default {ℓ} : {A : Type ℓ} → Option A → A → A
or_default none def = def
or_default (some a) def = a

-- the trimmed parts that are not empty
unfoldable pub list_parts : List Text → List Text
list_parts [] = []
list_parts (p ∷ ps) =
    let s = trim_space p in if text_eq s [] then list_parts ps else s ∷ list_parts ps

-- strconv.ParseBool
unfoldable pub parse_bool : Text → Option Bool
parse_bool s =
    if text_eq s (codes "1")
      || text_eq s (codes "t")
      || text_eq s (codes "T")
      || text_eq s (codes "TRUE")
      || text_eq s (codes "true")
      || text_eq s (codes "True")
    then some true
    else if text_eq s (codes "0")
        || text_eq s (codes "f")
        || text_eq s (codes "F")
        || text_eq s (codes "FALSE")
        || text_eq s (codes "false")
        || text_eq s (codes "False")
    then some false
    else none

unfoldable pub ok_or {ℓ} : {A : Type ℓ} → Result NumError A → A → A
ok_or (ok a) def = a
ok_or (err e) def = def

module _ (os : Environ) where
  unfoldable pub set_or : Option Text → Text → Text
  set_or none def = def
  set_or (some v) def = if text_eq v [] then def else v

  unfoldable pub env : String → Text → Text
  unfolding set_or
  env key def = set_or (os.lookup_env key) def

  unfoldable pub env_list : String → List Text → List Text
  env_list key def =
      let raw = env key [] in if text_eq raw [] then def else list_parts (split b',' raw)

  unfoldable pub env_int : String → ℤ → ℤ
  unfolding ok_or
  env_int key def = let raw = env key [] in if text_eq raw [] then def else ok_or (atoi raw) def

  unfoldable pub env_bool : String → Bool → Bool
  unfolding or_default
  env_bool key def =
      let raw = env key [] in if text_eq raw [] then def else or_default (parse_bool raw) def

  unfoldable pub env_duration : String → ℤ → ℤ
  unfolding or_default
  env_duration key def =
      let raw = env key [] in if text_eq raw [] then def else or_default (os.parse_duration raw) def

  -- the literal that Load builds
  unfoldable pub settings : Config
  settings = record {
    redis_url = env "REDIS_URL" (codes "unix:///var/run/valkey/valkey.sock");
    redis_group = env "REDIS_GROUP" (codes "remnanode-exporter");
    redis_consumer =
        env "REDIS_CONSUMER" (if text_eq os.hostname [] then codes "exporter" else os.hostname);
    redis_block = env_duration "REDIS_BLOCK" (seconds 5);
    redis_batch = env_int "REDIS_BATCH" (pos 500);
    start_from_beginning = env_bool "REDIS_START_FROM_BEGINNING" true;
    claim_min_idle = env_duration "REDIS_CLAIM_MIN_IDLE" (seconds 60);
    clickhouse_addrs = env_list "CLICKHOUSE_ADDR" (codes "clickhouse:9000" ∷ []);
    clickhouse_db = env "CLICKHOUSE_DB" (codes "remnawave");
    clickhouse_user = env "CLICKHOUSE_USER" (codes "default");
    clickhouse_password = env "CLICKHOUSE_PASSWORD" [];
    flush_interval = env_duration "FLUSH_INTERVAL" (seconds 5);
    flush_max_rows = env_int "FLUSH_MAX_ROWS" (pos 50000);
    geoip_city_path = env "GEOIP_CITY_DB" (codes "/geoip/GeoLite2-City.mmdb");
    geoip_asn_path = env "GEOIP_ASN_DB" (codes "/geoip/GeoLite2-ASN.mmdb");
    geoip_reload = env_duration "GEOIP_RELOAD_INTERVAL" (seconds 21600);
    api_url = trim_right (λ c. c == b'/') (env "REMNAWAVE_API_URL" []);
    api_token = env "REMNAWAVE_API_TOKEN" [];
    dict_refresh = env_duration "DICT_REFRESH_INTERVAL" (seconds 300);
    torrent_poll = env_duration "TORRENT_POLL_INTERVAL" (seconds 60);
    metrics_addr = env "METRICS_ADDR" (codes ":9102");
    log_level = env "LOG_LEVEL" (codes "info");
  }

-- the tests behind the literal
unfoldable pub validate : Config → Result ConfigError Config
validate c =
    if leb_ℤ c.redis_batch (pos 0)
    then err bad_redis_batch
    else if leb_ℤ c.flush_max_rows (pos 0)
    then err bad_flush_max_rows
    else if leb_ℤ c.flush_interval (pos 0)
    then err bad_flush_interval
    else if length c.clickhouse_addrs == 0
    then err no_clickhouse_addr
    else if leb_ℤ c.dict_refresh (pos 0)
    then err bad_dict_refresh
    else if leb_ℤ c.torrent_poll (pos 0)
    then err bad_torrent_poll
    else ok c

-- Load
unfoldable pub load : Environ → Result ConfigError Config
load os = validate (settings os)
