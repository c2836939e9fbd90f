-- ===== src/Command/Startup.antt =====
-- cmd/remnanode-exporter/main.go: run, which opens what the program works with, starts its goroutines
-- and releases everything again. What the world outside answers is a record.
pub mod Release
pub mod Exits
pub mod Limits
use remnanode_exporter.Prelude.{
  Bool, true, false, not, Option, List, [], ◌∷◌, ◌++◌, map, if◌then◌else◌, Text, Result, ok, err,
  pos_part,
}
use remnanode_exporter.Command.{Probe, Outcome, ready, stopped, undecided, wait_for}
use remnanode_exporter.Config.{Config, ConfigError, Environ, load}
use remnanode_exporter.Consumer.{Options}
use remnanode_exporter.Schema.Apply.{Call, SqlFile, ApplyError, apply}
use remnanode_exporter.Sink.Connect.{Dial, ConnectError, connect, ensure_database}

-- one try of EnsureDatabase, and the context by then and in the wait behind it
pub record Try : Type 0 where
  pub dial : Dial
  pub cancelled : Bool
  pub interrupted : Bool

-- what ends the select of run: a signal, or the error of a goroutine
pub data Ending : Type 0 where
  signalled : Ending
  task_failed : Text → Ending

pub record World : Type 0 where
  pub os : Environ
  pub tries : List Try
  pub dial : Dial
  pub files : Option (List SqlFile)
  pub exec : Call → Bool
  pub parses_url : Text → Bool
  pub pings : List Probe
  pub ending : Ending

-- what run closes by a deferred call
pub data Resource : Type 0 where
  writer geo_databases redis_client : Resource

-- the goroutines of the wait group
pub data Task : Type 0 where
  user_usage_worker sub_request_worker node_connections_worker geo_watch dict_sync : Task

pub data Act : Type 0 where
  opened closed : Resource → Act
  started : Task → Act
  -- the HTTP server starts in a goroutine of its own, outside of the wait group
  served : Act
  -- the context: by the signal, or by stop()
  cancelled : Act
  -- wg.Wait()
  joined : Act
  -- srv.Shutdown
  shut_down : Act

pub data RunError : Type 0 where
  bad_config : ConfigError → RunError
  not_ready : RunError
  not_connected : ConnectError → RunError
  not_applied : ApplyError → RunError
  bad_redis_url : RunError
  task_error : Text → RunError

-- `waiting` when the list of tries ends before waitFor does
pub data Exit : Type 0 where
  returned : Result RunError (Unit {0}) → Exit
  waiting : Exit

-- a resource that is opened before what follows, and closed by a deferred call behind it
unfoldable pub deferred : Resource → Exit × List Act → Exit × List Act
deferred r (returned e, acts) = (returned e, opened r ∷ (acts ++ closed r ∷ []))
deferred r (waiting, acts) = (waiting, opened r ∷ acts)

unfoldable pub when_ready : Outcome → Exit × List Act → Exit × List Act
when_ready ready next = next
when_ready stopped next = (returned (err not_ready), [])
when_ready undecided next = (waiting, [])

-- the goroutines, the select and the wait behind it
abbrev pub tasks : List Task
tasks =
    user_usage_worker ∷ sub_request_worker ∷ node_connections_worker ∷ geo_watch ∷ dict_sync ∷ []

unfoldable pub finish : Ending → Exit × List Act
finish signalled =
    (returned (ok tt), map started tasks ++ served ∷ cancelled ∷ joined ∷ shut_down ∷ [])
finish (task_failed e) =
    (returned (err (task_error e)), map started tasks ++ served ∷ cancelled ∷ joined ∷ [])

unfoldable pub is_ok {ℓ κ} : {E : Type ℓ} {A : Type κ} → Result E A → Bool
is_ok (ok a) = true
is_ok (err e) = false

unfoldable pub probe_of : Text → Try → Probe
unfolding is_ok
probe_of db t = record {
  succeeds = is_ok (ensure_database t.dial db).0;
  cancelled = t.cancelled;
  interrupted = t.interrupted;
}

module _ (w : World) where
  unfoldable pub with_redis : Config → Exit × List Act
  unfolding deferred when_ready finish
  with_redis c =
      if not (w.parses_url c.redis_url)
      then (returned (err bad_redis_url), [])
      else deferred redis_client (when_ready (wait_for w.pings).0 (finish w.ending))

  unfoldable pub with_schema : Config → Result ApplyError (Unit {0}) → Exit × List Act
  unfolding deferred with_redis
  with_schema c (err e) = (returned (err (not_applied e)), [])
  with_schema c (ok u) = deferred geo_databases (with_redis c)

  unfoldable pub with_writer : Config → Result ConnectError (Unit {0}) → Exit × List Act
  unfolding deferred with_schema
  with_writer c (err e) = (returned (err (not_connected e)), [])
  with_writer c (ok u) = deferred writer (with_schema c (apply c.clickhouse_db w.exec w.files).0)

  unfoldable pub with_config : Result ConfigError Config → Exit × List Act
  unfolding when_ready with_writer probe_of
  with_config (err e) = (returned (err (bad_config e)), [])
  with_config (ok c) =
      when_ready (wait_for (map (probe_of c.clickhouse_db) w.tries)).0
        (with_writer c (connect w.dial).0)

  -- run
  unfoldable pub run : Exit × List Act
  unfolding with_config
  run = with_config (load w.os)

-- the options that run builds for the workers; a limit below zero works like zero
unfoldable pub worker_options : Config → Options
worker_options c = record {
  group = c.redis_group;
  consumer = c.redis_consumer;
  start_from_beginning = c.start_from_beginning;
  flush_interval = c.flush_interval;
  flush_max_rows = pos_part c.flush_max_rows;
}
