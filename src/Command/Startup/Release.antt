-- ===== src/Command/Startup/Release.antt =====
-- What run opens it closes, in the reverse order and behind its goroutines.
use remnanode_exporter.Sink.Connect.{connect, ConnectError}
use remnanode_exporter.Schema.Apply.{ApplyError}
use remnanode_exporter.Config.{load, ConfigError, Config}
use remnanode_exporter.Command.{ready, stopped, undecided, wait_for, Outcome}
use remnanode_exporter.Prelude.{
  ◌≡◌, refl, ◌∙◌, inl, inr, Bool, true, false, Option, none, some, List, [], ◌∷◌, ◌++◌,
  if◌then◌else◌, Bool-cases, Result, ok, err,
}
use remnanode_exporter.Command.Startup.{
  task_error, RunError, signalled, task_failed, run, with_config, with_writer, with_schema,
  with_redis, Ending, World, finish, when_ready, deferred, Resource, writer, geo_databases,
  redis_client, Task, Act, opened, closed, started, served, cancelled, joined, shut_down, Exit,
  returned, waiting,
}

-- what is open, the last one first, which goroutines of the wait group run, whether the server of
-- the metrics runs, and whether the context is cancelled
pub record Live : Type 0 where
  pub open_ones : List Resource
  pub running : List Task
  pub serving : Bool
  pub is_cancelled : Bool

abbrev pub same_resource : Resource → Resource → Bool
same_resource writer writer = true
same_resource geo_databases geo_databases = true
same_resource redis_client redis_client = true
same_resource _ _ = false

-- One act. A resource can be closed if it is the last one opened and no goroutine of the wait group
-- runs; the wait for these ends if the context is cancelled; the server can be started and shut down
-- while the Redis client, which its health check asks, is open.
abbrev pub close_last : Resource → List Resource → List Task → Live → Option Live
close_last r (r' ∷ rs) [] l =
    if same_resource r r' then some (record l { open_ones = rs }) else none
close_last r _ _ l = none

abbrev pub with_client : List Resource → Live → Option Live
with_client (redis_client ∷ rs) l = some l
with_client _ l = none

abbrev pub act : Act → Live → Option Live
act (opened r) l = some (record l { open_ones = r ∷ l.open_ones })
act (closed r) l = close_last r l.open_ones l.running l
act (started t) l = some (record l { running = t ∷ l.running })
act served l = with_client l.open_ones (record l { serving = true })
act cancelled l = some (record l { is_cancelled = true })
act joined l = if l.is_cancelled then some (record l { running = [] }) else none
act shut_down l = with_client l.open_ones (record l { serving = false })

abbrev pub then_acts : (Live → Option Live) → Option Live → Option Live
then_acts f none = none
then_acts f (some l) = f l

-- the acts in turn, none if one of them cannot be
abbrev pub replay : List Act → Live → Option Live
replay [] l = some l
replay (a ∷ acts) l = then_acts (replay acts) (act a l)

-- from what is open, with nothing running
abbrev pub live : List Resource → Bool → Bool → Live
live rs serving c = record { open_ones = rs; running = []; serving = serving; is_cancelled = c }

-- The acts can be done from what is open; a run that has ended closes as much as it opened and leaves
-- no goroutine of the wait group behind, and the server as `left` says.
pub record Releases (rs : List Resource) (left : Bool) (acts : List Act) : Type 0 where
  pub ends_cancelled : Bool
  pub replayed : replay acts (live rs false false) ≡ some (live rs left ends_cancelled)

pub record Proceeds (rs : List Resource) (acts : List Act) : Type 0 where
  pub reached : Live
  pub replayed : replay acts (live rs false false) ≡ some reached

-- the server is left running behind the error of a goroutine alone
abbrev pub leaves_server : Result RunError (Unit {0}) → Bool
leaves_server (err (task_error e)) = true
leaves_server _ = false

abbrev pub IsClean : List Resource → Exit × List Act → Type 0
IsClean rs (returned e, acts) = Releases rs (leaves_server e) acts
IsClean rs (waiting, acts) = Proceeds rs acts

append_step :
    (xs ys : List Act) (o : Option Live)
    → ((l : Live) → replay (xs ++ ys) l ≡ then_acts (replay ys) (replay xs l))
    → then_acts (replay (xs ++ ys)) o ≡ then_acts (replay ys) (then_acts (replay xs) o)
append_step xs ys none h = refl
append_step xs ys (some l) h = h l

replay-append :
    (xs ys : List Act) (l : Live) → replay (xs ++ ys) l ≡ then_acts (replay ys) (replay xs l)
replay-append [] ys l = refl
replay-append (x ∷ xs) ys l = append_step xs ys (act x l) (λ m. replay-append xs ys m)

same_resource_refl : (r : Resource) → same_resource r r ≡ true
same_resource_refl writer = refl
same_resource_refl geo_databases = refl
same_resource_refl redis_client = refl

deferred-IsClean :
    (r : Resource) (rs : List Resource) (e : Exit) (acts : List Act)
    → IsClean (r ∷ rs) (e, acts)
    → IsClean rs (deferred r (e, acts))
unfolding deferred
deferred-IsClean r rs waiting acts h = record { reached = h.reached; replayed = h.replayed }
deferred-IsClean r rs (returned e) acts h = record {
  ends_cancelled = h.ends_cancelled;
  replayed = replay-append acts (closed r ∷ []) _ ∙ rw (h.replayed, same_resource_refl r) refl;
}

nothing-IsClean : (rs : List Resource) → Releases rs false []
nothing-IsClean rs = record { ends_cancelled = false; replayed = refl }

when_ready-IsClean :
    (o : Outcome) (rs : List Resource) (next : Exit × List Act)
    → IsClean rs next
    → IsClean rs (when_ready o next)
unfolding when_ready
when_ready-IsClean ready rs next h = h
when_ready-IsClean stopped rs next h = nothing-IsClean rs
when_ready-IsClean undecided rs next h = record { reached = _; replayed = refl }

finish-IsClean :
    (ending : Ending) (rs : List Resource) → IsClean (redis_client ∷ rs) (finish ending)
unfolding finish
finish-IsClean signalled rs = record { ends_cancelled = true; replayed = refl }
finish-IsClean (task_failed e) rs = record { ends_cancelled = true; replayed = refl }

module _ (w : World) where
  with_redis-IsClean : (c : Config) (rs : List Resource) → IsClean rs (with_redis w c)
  unfolding with_redis
  with_redis-IsClean c rs = elim (Bool-cases (w.parses_url c.redis_url)) [
    | inr e ↦ rw e (nothing-IsClean rs)
    | inl e ↦ rw e (
        deferred-IsClean redis_client rs _ _ (
          when_ready-IsClean (wait_for w.pings).0 (redis_client ∷ rs) (finish w.ending)
            (finish-IsClean w.ending rs)))
  ]

  with_schema-IsClean :
      (c : Config) (r : Result ApplyError (Unit {0})) (rs : List Resource)
      → IsClean rs (with_schema w c r)
  unfolding with_schema
  with_schema-IsClean c (err e) rs = nothing-IsClean rs
  with_schema-IsClean c (ok u) rs =
      deferred-IsClean geo_databases rs _ _ (with_redis-IsClean c (geo_databases ∷ rs))

  with_writer-IsClean :
      (c : Config) (r : Result ConnectError (Unit {0})) (rs : List Resource)
      → IsClean rs (with_writer w c r)
  unfolding with_writer
  with_writer-IsClean c (err e) rs = nothing-IsClean rs
  with_writer-IsClean c (ok u) rs =
      deferred-IsClean writer rs _ _ (with_schema-IsClean c _ (writer ∷ rs))

  with_config-IsClean :
      (r : Result ConfigError Config) (rs : List Resource) → IsClean rs (with_config w r)
  unfolding with_config
  with_config-IsClean (err e) rs = nothing-IsClean rs
  with_config-IsClean (ok c) rs =
      when_ready-IsClean _ rs _ (with_writer-IsClean c (connect w.dial).0 rs)

  -- run releases what it opened, however it ends
  pub run-IsClean : IsClean [] (run w)
  unfolding run
  run-IsClean = with_config-IsClean (load w.os) []
