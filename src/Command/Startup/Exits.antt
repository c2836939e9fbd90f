-- ===== src/Command/Startup/Exits.antt =====
-- When run returns no error, and that it releases everything however it ends.
use remnanode_exporter.Prelude.{
  ◌≡◌, refl, ◌↔◌, inl, inr, true, List, [], map, Bool-cases, Result, ok, err,
}
use remnanode_exporter.Command.{Outcome, ready, stopped, undecided, wait_for}
use remnanode_exporter.Command.Backoff.{Reaches, wait_for_ready_iff}
use remnanode_exporter.Command.Startup.{
  World, Resource, Act, Exit, returned, waiting, Ending, signalled, task_failed, writer,
  geo_databases, redis_client, deferred, when_ready, finish, probe_of, run, with_config,
  with_writer, with_schema, with_redis,
}
use remnanode_exporter.Command.Startup.Release.{IsClean, run-IsClean}
use remnanode_exporter.Config.{Config, ConfigError, load}
use remnanode_exporter.Schema.Apply.{ApplyError, apply}
use remnanode_exporter.Sink.Connect.{ConnectError, connect}

abbrev IsOk : Exit × List Act → Type 0
IsOk p = p.0 ≡ returned (ok tt)

deferred-IsOk :
    (r : Resource) (e : Exit) (acts : List Act)
    → IsOk (deferred r (e, acts)) ↔ (e ≡ returned (ok tt))
unfolding deferred
deferred-IsOk r (returned e) acts = (λ h. h, λ h. h)
deferred-IsOk r waiting acts = (λ h. h, λ h. h)

when_ready-IsOk :
    (o : Outcome) (next : Exit × List Act) → IsOk (when_ready o next) ↔ ((o ≡ ready) × IsOk next)
unfolding when_ready
when_ready-IsOk ready next = (λ h. (refl, h), λ (e, h). h)
when_ready-IsOk stopped next = (λ h. cc, λ (e, h). cc)
when_ready-IsOk undecided next = (λ h. cc, λ (e, h). cc)

finish-IsOk : (ending : Ending) → IsOk (finish ending) ↔ (ending ≡ signalled)
unfolding finish
finish-IsOk signalled = (λ h. refl, λ h. refl)
finish-IsOk (task_failed e) = (λ h. cc, λ h. cc)

module _ (w : World) where
  -- the stages behind the writer
  abbrev RedisUp : Config → Type 0
  RedisUp c = (w.parses_url c.redis_url ≡ true) × Reaches w.pings × (w.ending ≡ signalled)

  with_redis-IsOk : (c : Config) → IsOk (with_redis w c) ↔ RedisUp c
  unfolding with_redis
  with_redis-IsOk c = elim (Bool-cases (w.parses_url c.redis_url)) [
    | inr e ↦ rw e (λ h. cc, λ (a, b, c). cc)
    | inl e ↦
        let d =
          deferred-IsOk redis_client (when_ready (wait_for w.pings).0 (finish w.ending)).0
            (when_ready (wait_for w.pings).0 (finish w.ending)).1 in
        let r = when_ready-IsOk (wait_for w.pings).0 (finish w.ending) in
        let f = finish-IsOk w.ending in
        let b = wait_for_ready_iff w.pings in
        rw e (
          λ h. let (x, y) = r.0 (d.0 h) in (refl, b.0 x, f.0 y),
          λ (u, x, y). d.1 (r.1 (b.1 x, f.1 y)),
        )
  ]

  with_schema-IsOk :
      (c : Config) (r : Result ApplyError (Unit {0}))
      → IsOk (with_schema w c r) ↔ ((r ≡ ok tt) × RedisUp c)
  unfolding with_schema
  with_schema-IsOk c (err e) = (λ h. cc, λ (a, b). cc)
  with_schema-IsOk c (ok u) =
      let d = deferred-IsOk geo_databases (with_redis w c).0 (with_redis w c).1 in
      let r = with_redis-IsOk c in (λ h. (refl, r.0 (d.0 h)), λ (e, h). d.1 (r.1 h))

  with_writer-IsOk :
      (c : Config) (r : Result ConnectError (Unit {0}))
      → IsOk (with_writer w c r)
        ↔ ((r ≡ ok tt) × ((apply c.clickhouse_db w.exec w.files).0 ≡ ok tt) × RedisUp c)
  unfolding with_writer
  with_writer-IsOk c (err e) = (λ h. cc, λ (a, b, k). cc)
  with_writer-IsOk c (ok u) =
      let applied = (apply c.clickhouse_db w.exec w.files).0 in
      let d = deferred-IsOk writer (with_schema w c applied).0 (with_schema w c applied).1 in
      let r = with_schema-IsOk c applied in
      (λ h. let (a, b) = r.0 (d.0 h) in (refl, a, b), λ (e, a, b). d.1 (r.1 (a, b)))

  -- every stage of the start-up succeeds, and a signal ends the run
  pub record IsServed : Type 0 where
    pub config : Config
    pub loaded : load w.os ≡ ok config
    pub database : Reaches (map (probe_of config.clickhouse_db) w.tries)
    pub connected : (connect w.dial).0 ≡ ok tt
    pub schema_applied : (apply config.clickhouse_db w.exec w.files).0 ≡ ok tt
    pub url_parsed : w.parses_url config.redis_url ≡ true
    pub redis : Reaches w.pings
    pub ended : w.ending ≡ signalled

  config_served :
      (r : Result ConfigError Config) → load w.os ≡ r → IsOk (with_config w r) → IsServed
  unfolding with_config
  config_served (err e) l h = cc
  config_served (ok c) l h =
      let probes = map (probe_of c.clickhouse_db) w.tries in
      let (a, b) = (when_ready-IsOk (wait_for probes).0 (with_writer w c (connect w.dial).0)).0 h in
      let (p, q, up) = (with_writer-IsOk c (connect w.dial).0).0 b in
      let (u, v, x) = up in
      record {
        config = c;
        loaded = l;
        database = (wait_for_ready_iff probes).0 a;
        connected = p;
        schema_applied = q;
        url_parsed = u;
        redis = v;
        ended = x;
      }

  served_config : (s : IsServed) → IsOk (with_config w (ok s.config))
  unfolding with_config
  served_config s =
      let probes = map (probe_of s.config.clickhouse_db) w.tries in
      (when_ready-IsOk (wait_for probes).0 (with_writer w s.config (connect w.dial).0)).1 (
        (wait_for_ready_iff probes).1 s.database,
        (with_writer-IsOk s.config (connect w.dial).0).1
            (s.connected, s.schema_applied, (s.url_parsed, s.redis, s.ended)),
      )

  -- run returns no error exactly when Load accepts the settings, the database can be created before the
  -- context is cancelled, Connect succeeds, every statement of the schema is run, the Redis URL is one
  -- and Redis answers before the context is cancelled, and a signal ends the run rather than a
  -- goroutine's error. However it ends, on every error as well, it has closed each of the writer, the
  -- GeoIP databases and the Redis client that it opened once, the last one opened first, with no
  -- goroutine of its wait group left that could still use them, and it waited for these behind a
  -- cancelled context only. Its HTTP server, which asks the Redis client, is shut down before the
  -- client is closed when run ends without an error, and left running behind the closed client exactly
  -- when run returns a goroutine's error.
  pub run-Exits : (((run w).0 ≡ returned (ok tt)) ↔ IsServed) × IsClean [] (run w)
  unfolding run
  run-Exits = ((config_served (load w.os) refl, λ s. rw s.loaded (served_config s)), run-IsClean w)
