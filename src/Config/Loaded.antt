-- ===== src/Config/Loaded.antt =====
-- What Load accepts, and what a configuration that it returns is like.
use remnanode_exporter.Prelude.{
  ℕ, String, ◌≡◌, refl, ap, ◌∙◌, ◌≢◌, ◌↔◌, Bool, true, false, some, [], ◌∷◌, arith, str_eq,
  if◌then◌else◌, Text, ne-nil_of_length, length_of_ne-nil, Result, ok, err, ℤ, pos, ◌<ℤ◌, leb_ℤ,
  subst,
}
use remnanode_exporter.Config.Spelled.{IsSpelled}
use remnanode_exporter.Config.Readers.{settings-IsSpelled, unique_config}
use remnanode_exporter.Config.{
  or_default, set_or, env_duration, env_bool, env_int, env_list, env, settings, Environ,
  ConfigError, validate, Config, load,
}

-- What the program relies on.
pub record IsValid (c : Config) : Type 0 where
  pub batch : pos 0 <ℤ c.redis_batch
  pub rows : pos 0 <ℤ c.flush_max_rows
  pub interval : pos 0 <ℤ c.flush_interval
  pub addrs : c.clickhouse_addrs ≢ []
  pub refresh : pos 0 <ℤ c.dict_refresh
  pub poll : pos 0 <ℤ c.torrent_poll

not_leb_ℤ : (a : ℤ) → leb_ℤ a (pos 0) ≡ false → pos 0 <ℤ a
not_leb_ℤ a h = ground arith

lt_not_leb_ℤ : (a : ℤ) → pos 0 <ℤ a → leb_ℤ a (pos 0) ≡ false
lt_not_leb_ℤ a h = ground arith

validate_complete : (c : Config) → IsValid c → validate c ≡ ok c
unfolding validate
validate_complete c v =
    rw
      (
        lt_not_leb_ℤ c.redis_batch v.batch,
        lt_not_leb_ℤ c.flush_max_rows v.rows,
        lt_not_leb_ℤ c.flush_interval v.interval,
        length_of_ne-nil c.clickhouse_addrs v.addrs,
        lt_not_leb_ℤ c.dict_refresh v.refresh,
        lt_not_leb_ℤ c.torrent_poll v.poll,
      )
      refl

passed :
    (b : Bool) (e : ConfigError) (r : Result ConfigError Config) (d : Config)
    → (if b then err e else r) ≡ ok d
    → (b ≡ false) × (r ≡ ok d)
passed true e r d h = cc
passed false e r d h = (refl, h)

validate_sound : (c d : Config) → validate c ≡ ok d → IsValid c × (c ≡ d)
unfolding validate
validate_sound c d h =
    let (batch, h1) = passed _ _ _ d h in
    let (rows, h2) = passed _ _ _ d h1 in
    let (interval, h3) = passed _ _ _ d h2 in
    let (addrs, h4) = passed _ _ _ d h3 in
    let (refresh, h5) = passed _ _ _ d h4 in
    let (poll, h6) = passed _ _ _ d h5 in
    (
      record {
        batch = not_leb_ℤ c.redis_batch batch;
        rows = not_leb_ℤ c.flush_max_rows rows;
        interval = not_leb_ℤ c.flush_interval interval;
        addrs = ne-nil_of_length c.clickhouse_addrs addrs;
        refresh = not_leb_ℤ c.dict_refresh refresh;
        poll = not_leb_ℤ c.torrent_poll poll;
      },
      cc,
    )

-- Load returns the literal, if it passes the tests.
pub load-settings : (os : Environ) (c : Config) → (load os ≡ ok c) ↔ (IsValid c × (settings os ≡ c))
unfolding load
load-settings os c = (
  λ h. let (v, e) = validate_sound (settings os) c h in (subst IsValid e v, e),
  λ (v, e). rw e (validate_complete c v),
)

-- Load returns a configuration exactly when every field of it is what its variable spells (with the
-- variable's name and its default where it is unset, empty or unreadable), the batch size, the row
-- limit, the flush interval and the two refresh intervals are positive and there is a ClickHouse
-- address; it returns nothing else without an error.
pub load_ok_iff : (os : Environ) (c : Config) → (load os ≡ ok c) ↔ (IsValid c × IsSpelled os c)
load_ok_iff os c = (
  λ h. let (v, e) = (load-settings os c).0 h in (v, subst (IsSpelled os) e (settings-IsSpelled os)),
  λ (v, s). (load-settings os c).1 (v, unique_config os (settings os) c (settings-IsSpelled os) s),
)

-- the environment with one variable set
abbrev pub set_var : String → Text → Environ → Environ
set_var key v os = record os { lookup_env = λ k. if str_eq k key then some v else os.lookup_env k }

settings-set_var :
    (os : Environ) (c : ℕ) (text : Text) (d : ℤ)
    → os.parse_duration (c ∷ text) ≡ some d
    → settings (set_var "REDIS_CLAIM_MIN_IDLE" (c ∷ text) os)
      ≡ record (settings os) { claim_min_idle = d }
unfolding settings env env_list env_int env_bool env_duration set_or or_default
settings-set_var os c text d h = rw h refl

-- REDIS_CLAIM_MIN_IDLE is not tested: whatever duration it spells, zero or negative as well, Load
-- accepts it beside settings that it accepts, and changes no other setting.
pub load-set_var_claim :
    (os : Environ) (s : Config) (c : ℕ) (text : Text) (d : ℤ)
    → load os ≡ ok s
    → os.parse_duration (c ∷ text) ≡ some d
    → load (set_var "REDIS_CLAIM_MIN_IDLE" (c ∷ text) os) ≡ ok (record s { claim_min_idle = d })
load-set_var_claim os s c text d h e =
    let (v, same) = (load-settings os s).0 h in
    (load-settings (set_var "REDIS_CLAIM_MIN_IDLE" (c ∷ text) os)
        (record s { claim_min_idle = d })).1
      (
        record {
          batch = v.batch;
          rows = v.rows;
          interval = v.interval;
          addrs = v.addrs;
          refresh = v.refresh;
          poll = v.poll;
        },
        settings-set_var os c text d e ∙ ap (λ (x : Config). record x { claim_min_idle = d }) same,
      )
