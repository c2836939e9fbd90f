-- ===== src/Command.antt =====
-- cmd/remnanode-exporter/main.go: waitFor. What the dependency and the context answer is a list.
pub mod Backoff
pub mod Startup
use remnanode_exporter.Prelude.{
  ℕ, ◌*◌, Bool, Option, none, some, List, [], ◌∷◌, ltb, if◌then◌else◌, Text, codes, ℤ, pos,
}

-- one turn of the loop: whether the probe succeeds, whether the context is cancelled by then, and
-- whether it is cancelled during the wait
pub record Probe : Type 0 where
  pub succeeds : Bool
  pub cancelled : Bool
  pub interrupted : Bool

-- `undecided` when the list ends before the loop does
pub data Outcome : Type 0 where
  ready stopped undecided : Outcome

-- nanoseconds
abbrev pub nanos : ℕ
nanos = 1000000000

unfoldable pub next_backoff : ℕ → ℕ
next_backoff backoff = if ltb backoff (15 * nanos) then backoff * 2 else backoff

-- the loop of waitFor, and the waits that it starts
unfoldable pub wait_loop : ℕ → List Probe → Outcome × List ℕ
wait_loop backoff [] = (undecided, [])
wait_loop backoff (p ∷ ps) =
    let (outcome, waits) = wait_loop (next_backoff backoff) ps in
    if p.succeeds
    then (ready, [])
    else if p.cancelled
    then (stopped, [])
    else if p.interrupted
    then (stopped, backoff ∷ [])
    else (outcome, backoff ∷ waits)

-- waitFor
unfoldable pub wait_for : List Probe → Outcome × List ℕ
wait_for ps = wait_loop nanos ps

-- newLogger: slog.Level.UnmarshalText is a parameter, `none` for an error; LevelInfo is 0
unfoldable pub log_level : (Text → Option ℤ) → Text → ℤ
log_level unmarshal level = elim (unmarshal level) [ none ↦ pos 0 | some l ↦ l ]

-- the handler of /healthz, by whether Redis answers the ping: the status and the body
unfoldable pub healthz : Bool → ℕ × Text
healthz pong = if pong then (200, codes "ok") else (503, codes "redis unavailable\n")
