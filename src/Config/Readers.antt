-- ===== src/Config/Readers.antt =====
-- The readers of internal/config/config.go read what the environment spells.
use remnanode_exporter.Strconv.{NumError, atoi}
use remnanode_exporter.Strings.{trim_right, trim_space, split}
use remnanode_exporter.Config.{
  Environ, Config, seconds, or_default, ok_or, parse_bool, list_parts, set_or, env, env_int,
  env_list, env_bool, env_duration, settings,
}
use remnanode_exporter.Prelude.{
  ℕ, String, ◌≡◌, refl, sym, ap, ◌∙◌, Bool, true, Option, none, some, List, [], ◌∷◌, ◌++◌, arith,
  ◌==◌, if◌then◌else◌, Text, codes, text_eq, text_eq_iff, concat_map, Result, ok, err, ℤ, pos,
  subst,
}
use remnanode_exporter.Config.Spelled.{
  as_bool, Reads, unset, empty, unreadable, readable, as_text, as_int, as_list, as_url,
  unless_empty, IsSpelled,
}

module _ {A : Type 0} where
  abbrev value : (Text → Option A) → A → Option Text → A
  value parse def none = def
  value parse def (some []) = def
  value parse def (some (c ∷ t)) = or_default (parse (c ∷ t)) def

  Reads_value :
      (os : Environ) (parse : Text → Option A) (key : String) (def v : A)
      → Reads os parse key def v
      → value parse def (os.lookup_env key) ≡ v
  unfolding or_default
  Reads_value os parse key def _ (unset e) = rw e refl
  Reads_value os parse key def _ (empty e) = rw e refl
  Reads_value os parse key def _ (unreadable e f) = rw (e, f) refl
  Reads_value os parse key def _ (readable e f) = rw (e, f) refl

  unique :
      {os : Environ} {parse : Text → Option A} {key : String} {def v w : A}
      → Reads os parse key def v
      → Reads os parse key def w
      → v ≡ w
  unique {os = os} {parse = parse} {key = key} {def = def} {v = v} {w = w} a b =
      sym (Reads_value os parse key def v a) ∙ Reads_value os parse key def w b

  parsed-Reads :
      (os : Environ) (parse : Text → Option A) (key : String) (def : A) (c : ℕ) (t : Text)
      (o : Option A)
      → os.lookup_env key ≡ some (c ∷ t)
      → parse (c ∷ t) ≡ o
      → Reads os parse key def (or_default o def)
  unfolding or_default
  parsed-Reads os parse key def c t none e f = unreadable e f
  parsed-Reads os parse key def c t (some a) e f = readable e f

  value-Reads :
      (os : Environ) (parse : Text → Option A) (key : String) (def : A) (x : Option Text)
      → os.lookup_env key ≡ x
      → Reads os parse key def (value parse def x)
  value-Reads os parse key def none e = unset e
  value-Reads os parse key def (some []) e = empty e
  value-Reads os parse key def (some (c ∷ t)) e =
      parsed-Reads os parse key def c t (parse (c ∷ t)) e refl

  -- a reader of the program, when it agrees with `value`
  read :
      (os : Environ) (parse : Text → Option A) (key : String) (def v : A)
      → v ≡ value parse def (os.lookup_env key)
      → Reads os parse key def v
  read os parse key def v e =
      subst (Reads os parse key def) (sym e) (value-Reads os parse key def (os.lookup_env key) refl)

  -- the readers test for the empty text in place of a match
  tested :
      (os : Environ) (parse : Text → Option A) (def : A) (f : Text → A) (x : Option Text)
      → ((c : ℕ) (t : Text) → f (c ∷ t) ≡ or_default (parse (c ∷ t)) def)
      → (if text_eq (set_or os x []) [] then def else f (set_or os x [])) ≡ value parse def x
  unfolding set_or
  tested os parse def f none h = ground (arith, text_eq_iff [] [])
  tested os parse def f (some []) h = ground (arith, text_eq_iff [] [])
  tested os parse def f (some (c ∷ t)) h = ground (arith, text_eq_iff (c ∷ t) [], h c t)

module _ (os : Environ) where
  text_value : (def : Text) (x : Option Text) → set_or os x def ≡ value as_text def x
  unfolding set_or or_default
  text_value def none = refl
  text_value def (some []) = ground (arith, text_eq_iff [] [])
  text_value def (some (c ∷ t)) = ground (arith, text_eq_iff (c ∷ t) [])

  url_value : (x : Option Text) → trim_right (λ c. c == b'/') (set_or os x []) ≡ value as_url [] x
  unfolding set_or or_default trim_right
  url_value none = refl
  url_value (some []) = ap (trim_right (λ c. c == b'/')) (text_value [] (some []))
  url_value (some (c ∷ t)) = ap (trim_right (λ c. c == b'/')) (text_value [] (some (c ∷ t)))

  kept : (s : Text) (ps : List Text) → (if text_eq s [] then ps else s ∷ ps) ≡ unless_empty s ++ ps
  kept [] ps = ground (arith, text_eq_iff [] [])
  kept (c ∷ s) ps = ground (arith, text_eq_iff (c ∷ s) [])

  list_parts_lem :
      (ps : List Text) → list_parts ps ≡ concat_map (λ p. unless_empty (trim_space p)) ps
  unfolding list_parts
  list_parts_lem [] = refl
  list_parts_lem (p ∷ ps) = rw (list_parts_lem ps) (kept (trim_space p) _)

  int_value :
      (r : Result NumError ℤ) (def : ℤ)
      → ok_or r def ≡ or_default (elim r [ ok n ↦ some n | err e ↦ none ]) def
  unfolding ok_or or_default
  int_value (ok n) def = refl
  int_value (err e) def = refl

  read_text : (key : String) (def : Text) → Reads os as_text key def (env os key def)
  unfolding env
  read_text key def = read os as_text key def _ (text_value def (os.lookup_env key))

  read_url : (key : String) → Reads os as_url key [] (trim_right (λ c. c == b'/') (env os key []))
  unfolding env
  read_url key = read os as_url key [] _ (url_value (os.lookup_env key))

  read_int : (key : String) (def : ℤ) → Reads os as_int key def (env_int os key def)
  unfolding env_int env
  read_int key def = read os as_int key def _ (
      tested os as_int def (λ t. ok_or (atoi t) def) (os.lookup_env key)
        (λ c t. int_value (atoi (c ∷ t)) def))

  parse_bool_lem : (t : Text) → parse_bool t ≡ as_bool t
  unfolding parse_bool
  parse_bool_lem t = ground arith

  read_bool : (key : String) (def : Bool) → Reads os as_bool key def (env_bool os key def)
  unfolding env_bool env
  read_bool key def = read os as_bool key def _ (
      tested os as_bool def (λ t. or_default (parse_bool t) def) (os.lookup_env key)
        (λ c t. ap (λ o. or_default o def) (parse_bool_lem (c ∷ t))))

  read_duration :
      (key : String) (def : ℤ) → Reads os os.parse_duration key def (env_duration os key def)
  unfolding env_duration env
  read_duration key def = read os os.parse_duration key def _ (
      tested os os.parse_duration def (λ t. or_default (os.parse_duration t) def)
        (os.lookup_env key) (λ c t. refl))

  read_list : (key : String) (def : List Text) → Reads os as_list key def (env_list os key def)
  unfolding env_list env
  read_list key def = read os as_list key def _ (
      tested os as_list def (λ t. list_parts (split b',' t)) (os.lookup_env key)
        (λ c t. unfold or_default in list_parts_lem (split b',' (c ∷ t))))

pub settings-IsSpelled : (os : Environ) → IsSpelled os (settings os)
unfolding settings
settings-IsSpelled os = record {
  redis_url = read_text os "REDIS_URL" (codes "unix:///var/run/valkey/valkey.sock");
  redis_group = read_text os "REDIS_GROUP" (codes "remnanode-exporter");
  redis_consumer =
      read_text os "REDIS_CONSUMER"
        (if text_eq os.hostname [] then codes "exporter" else os.hostname);
  redis_block = read_duration os "REDIS_BLOCK" (seconds 5);
  redis_batch = read_int os "REDIS_BATCH" (pos 500);
  start_from_beginning = read_bool os "REDIS_START_FROM_BEGINNING" true;
  claim_min_idle = read_duration os "REDIS_CLAIM_MIN_IDLE" (seconds 60);
  clickhouse_addrs = read_list os "CLICKHOUSE_ADDR" (codes "clickhouse:9000" ∷ []);
  clickhouse_db = read_text os "CLICKHOUSE_DB" (codes "remnawave");
  clickhouse_user = read_text os "CLICKHOUSE_USER" (codes "default");
  clickhouse_password = read_text os "CLICKHOUSE_PASSWORD" [];
  flush_interval = read_duration os "FLUSH_INTERVAL" (seconds 5);
  flush_max_rows = read_int os "FLUSH_MAX_ROWS" (pos 50000);
  geoip_city_path = read_text os "GEOIP_CITY_DB" (codes "/geoip/GeoLite2-City.mmdb");
  geoip_asn_path = read_text os "GEOIP_ASN_DB" (codes "/geoip/GeoLite2-ASN.mmdb");
  geoip_reload = read_duration os "GEOIP_RELOAD_INTERVAL" (seconds 21600);
  api_url = read_url os "REMNAWAVE_API_URL";
  api_token = read_text os "REMNAWAVE_API_TOKEN" [];
  dict_refresh = read_duration os "DICT_REFRESH_INTERVAL" (seconds 300);
  torrent_poll = read_duration os "TORRENT_POLL_INTERVAL" (seconds 60);
  metrics_addr = read_text os "METRICS_ADDR" (codes ":9102");
  log_level = read_text os "LOG_LEVEL" (codes "info");
}

-- the environment spells one configuration
pub unique_config : (os : Environ) (c d : Config) → IsSpelled os c → IsSpelled os d → c ≡ d
unique_config os c d a b = λ i. record {
  redis_url = unique a.redis_url b.redis_url i;
  redis_group = unique a.redis_group b.redis_group i;
  redis_consumer = unique a.redis_consumer b.redis_consumer i;
  redis_block = unique a.redis_block b.redis_block i;
  redis_batch = unique a.redis_batch b.redis_batch i;
  start_from_beginning = unique a.start_from_beginning b.start_from_beginning i;
  claim_min_idle = unique a.claim_min_idle b.claim_min_idle i;
  clickhouse_addrs = unique a.clickhouse_addrs b.clickhouse_addrs i;
  clickhouse_db = unique a.clickhouse_db b.clickhouse_db i;
  clickhouse_user = unique a.clickhouse_user b.clickhouse_user i;
  clickhouse_password = unique a.clickhouse_password b.clickhouse_password i;
  flush_interval = unique a.flush_interval b.flush_interval i;
  flush_max_rows = unique a.flush_max_rows b.flush_max_rows i;
  geoip_city_path = unique a.geoip_city_path b.geoip_city_path i;
  geoip_asn_path = unique a.geoip_asn_path b.geoip_asn_path i;
  geoip_reload = unique a.geoip_reload b.geoip_reload i;
  api_url = unique a.api_url b.api_url i;
  api_token = unique a.api_token b.api_token i;
  dict_refresh = unique a.dict_refresh b.dict_refresh i;
  torrent_poll = unique a.torrent_poll b.torrent_poll i;
  metrics_addr = unique a.metrics_addr b.metrics_addr i;
  log_level = unique a.log_level b.log_level i;
}
