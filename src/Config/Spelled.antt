-- ===== src/Config/Spelled.antt =====
-- What each setting of Load is, in terms of the variables of the environment.
use remnanode_exporter.Strconv.{atoi}
use remnanode_exporter.Strings.{trim_right, trim_space, split}
use remnanode_exporter.Config.{Environ, Config, seconds}
use remnanode_exporter.Prelude.{
  ℕ, String, ◌≡◌, Bool, true, false, Option, none, some, List, [], ◌∷◌, ◌==◌, if◌then◌else◌, Text,
  codes, text_eq, concat_map, ok, err, ℤ, pos,
}

-- The value of a variable: the default when it is unset, empty or unreadable.
pub data Reads (os : Environ) {A : Type 0} (parse : Text → Option A) (key : String) (def : A)
    : A → Type 0 where
  unset : os.lookup_env key ≡ none → Reads os parse key def def
  empty : os.lookup_env key ≡ some [] → Reads os parse key def def
  unreadable :
      {c : ℕ} {t : Text}
      → os.lookup_env key ≡ some (c ∷ t)
      → parse (c ∷ t) ≡ none
      → Reads os parse key def def
  readable :
      {c : ℕ} {t : Text} {a : A}
      → os.lookup_env key ≡ some (c ∷ t)
      → parse (c ∷ t) ≡ some a
      → Reads os parse key def a

abbrev pub as_text : Text → Option Text
as_text t = some t

abbrev pub as_int : Text → Option ℤ
as_int t = elim (atoi t) [ ok n ↦ some n | err e ↦ none ]

-- the texts that strconv.ParseBool takes
abbrev pub bool_texts : List (String × Bool)
bool_texts =
    ("1", true)
    ∷ ("t", true)
    ∷ ("T", true)
    ∷ ("TRUE", true)
    ∷ ("true", true)
    ∷ ("True", true)
    ∷ ("0", false)
    ∷ ("f", false)
    ∷ ("F", false)
    ∷ ("FALSE", false)
    ∷ ("false", false)
    ∷ ("False", false)
    ∷ []

abbrev pub find_text : Text → List (String × Bool) → Option Bool
find_text t [] = none
find_text t ((s, b) ∷ table) = if text_eq t (codes s) then some b else find_text t table

abbrev pub as_bool : Text → Option Bool
as_bool t = find_text t bool_texts

abbrev pub unless_empty : Text → List Text
unless_empty [] = []
unless_empty (c ∷ t) = (c ∷ t) ∷ []

-- the parts between commas, trimmed, without the empty ones
abbrev pub as_list : Text → Option (List Text)
as_list t = some (concat_map (λ p. unless_empty (trim_space p)) (split b',' t))

-- without the slashes at the end
abbrev pub as_url : Text → Option Text
as_url t = some (trim_right (λ c. c == b'/') t)

-- each field, with its variable and its default
pub record IsSpelled (os : Environ) (c : Config) : Type 0 where
  pub redis_url :
      Reads os as_text "REDIS_URL" (codes "unix:///var/run/valkey/valkey.sock") c.redis_url
  pub redis_group : Reads os as_text "REDIS_GROUP" (codes "remnanode-exporter") c.redis_group
  pub redis_consumer :
      Reads os as_text "REDIS_CONSUMER"
        (if text_eq os.hostname [] then codes "exporter" else os.hostname)
        c.redis_consumer
  pub redis_block : Reads os os.parse_duration "REDIS_BLOCK" (seconds 5) c.redis_block
  pub redis_batch : Reads os as_int "REDIS_BATCH" (pos 500) c.redis_batch
  pub start_from_beginning :
      Reads os as_bool "REDIS_START_FROM_BEGINNING" true c.start_from_beginning
  pub claim_min_idle :
      Reads os os.parse_duration "REDIS_CLAIM_MIN_IDLE" (seconds 60) c.claim_min_idle
  pub clickhouse_addrs :
      Reads os as_list "CLICKHOUSE_ADDR" (codes "clickhouse:9000" ∷ []) c.clickhouse_addrs
  pub clickhouse_db : Reads os as_text "CLICKHOUSE_DB" (codes "remnawave") c.clickhouse_db
  pub clickhouse_user : Reads os as_text "CLICKHOUSE_USER" (codes "default") c.clickhouse_user
  pub clickhouse_password : Reads os as_text "CLICKHOUSE_PASSWORD" [] c.clickhouse_password
  pub flush_interval : Reads os os.parse_duration "FLUSH_INTERVAL" (seconds 5) c.flush_interval
  pub flush_max_rows : Reads os as_int "FLUSH_MAX_ROWS" (pos 50000) c.flush_max_rows
  pub geoip_city_path :
      Reads os as_text "GEOIP_CITY_DB" (codes "/geoip/GeoLite2-City.mmdb") c.geoip_city_path
  pub geoip_asn_path :
      Reads os as_text "GEOIP_ASN_DB" (codes "/geoip/GeoLite2-ASN.mmdb") c.geoip_asn_path
  pub geoip_reload :
      Reads os os.parse_duration "GEOIP_RELOAD_INTERVAL" (seconds 21600) c.geoip_reload
  pub api_url : Reads os as_url "REMNAWAVE_API_URL" [] c.api_url
  pub api_token : Reads os as_text "REMNAWAVE_API_TOKEN" [] c.api_token
  pub dict_refresh : Reads os os.parse_duration "DICT_REFRESH_INTERVAL" (seconds 300) c.dict_refresh
  pub torrent_poll : Reads os os.parse_duration "TORRENT_POLL_INTERVAL" (seconds 60) c.torrent_poll
  pub metrics_addr : Reads os as_text "METRICS_ADDR" (codes ":9102") c.metrics_addr
  pub log_level : Reads os as_text "LOG_LEVEL" (codes "info") c.log_level
