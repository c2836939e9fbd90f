-- ===== src/Sink/Connect.antt =====
-- internal/sink/clickhouse.go: Connect and EnsureDatabase, with the connections that they open.
use remnanode_exporter.Prelude.{
  ℕ, zero, suc, ◌≡◌, refl, inl, inr, Bool, not, Option, none, some, List, [], ◌∷◌, ◌++◌,
  if◌then◌else◌, Bool-cases, Text, codes, Result, ok, err,
}

-- what clickhouse.Open, Ping and Exec answer
pub record Dial : Type 0 where
  pub opens : Bool
  pub pings : Bool
  pub executes : Bool

pub data ConnectError : Type 0 where
  open_failed ping_failed exec_failed : ConnectError

pub data ConnAct : Type 0 where
  opened closed : ConnAct
  executed : Text → ConnAct

-- Connect
unfoldable pub connect : Dial → Result ConnectError (Unit {0}) × List ConnAct
connect d =
    if not d.opens
    then (err open_failed, [])
    else if not d.pings
    then (err ping_failed, opened ∷ closed ∷ [])
    else (ok tt, opened ∷ [])

-- EnsureDatabase, behind its Connect to the database `default`; the deferred Close comes last
unfoldable pub create_database :
    Dial
    → Text
    → Result ConnectError (Unit {0}) × List ConnAct
    → Result ConnectError (Unit {0}) × List ConnAct
create_database d name (err e, acts) = (err e, acts)
create_database d name (ok u, acts) = (
  if d.executes then ok tt else err exec_failed,
  acts ++ executed (codes "CREATE DATABASE IF NOT EXISTS " ++ name) ∷ closed ∷ [],
)

unfoldable pub ensure_database : Dial → Text → Result ConnectError (Unit {0}) × List ConnAct
unfolding create_database
ensure_database d name = create_database d name (connect d)

-- the connections that are open behind the acts, none if one is closed that is not open
unfoldable pub open_conns : ℕ → List ConnAct → Option ℕ
open_conns n [] = some n
open_conns n (opened ∷ acts) = open_conns (suc n) acts
open_conns zero (closed ∷ acts) = none
open_conns (suc n) (closed ∷ acts) = open_conns n acts
open_conns n (executed stmt ∷ acts) = open_conns n acts

-- what is left open: one connection with no error, none with one
abbrev pub LeavesOpen : Result ConnectError (Unit {0}) → List ConnAct → Type 0
LeavesOpen (ok u) acts = open_conns 0 acts ≡ some 1
LeavesOpen (err e) acts = open_conns 0 acts ≡ some 0

-- Connect leaves one connection open when it returns no error and none when it returns one;
-- EnsureDatabase leaves none open on any branch, and never closes one twice.
pub connect-open_conns :
    (d : Dial) (name : Text)
    → LeavesOpen (connect d).0 (connect d).1 × (open_conns 0 (ensure_database d name).1 ≡ some 0)
unfolding connect ensure_database open_conns
connect-open_conns d name = elim (Bool-cases d.opens) [
  | inr e ↦ rw e (refl, refl)
  | inl e ↦ elim (Bool-cases d.pings) [
    | inr e' ↦ rw (e, e') (refl, refl)
    | inl e' ↦ rw (e, e') (refl, refl)
  ]
]
