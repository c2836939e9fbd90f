-- ===== src/Command/Startup/Limits.antt =====
-- The limits that the workers get from a configuration that Load accepts.
use remnanode_exporter.Prelude.{
  ℕ, ◌<◌, String, ◌≡◌, some, arith, length, ok, ℤ, pos, pos_part, neg_part, ◌<ℤ◌,
}
use remnanode_exporter.Config.{Config, Environ, load}
use remnanode_exporter.Config.Loaded.{load-settings}
use remnanode_exporter.Command.Startup.{worker_options}
use remnanode_exporter.Consumer.{Decoder, Message, State, RoundEnv, after_read}
use remnanode_exporter.Consumer.Bounds.{after_read_rows-lt}
use remnanode_exporter.Consumer.Delivery.{IsSound}

not_negative : (z : ℤ) → pos 0 <ℤ z → neg_part z ≡ 0
not_negative z h = ground arith

-- In the program as it starts up, with the settings that Load accepted, a worker of any stream whose
-- buffer is that of the entries that it took in holds fewer rows than FLUSH_MAX_ROWS behind every
-- read that succeeded, whatever ClickHouse answers.
pub load_rows-lt :
    (os : Environ) (c : Config) (db : String) (dec : Decoder) (P : Message → Type 0)
    (env : RoundEnv) (n : ℕ) (s : State)
    → load os ≡ ok c
    → IsSound dec P s
    → pos (length (after_read db dec (worker_options c) env (some n, s)).rows) <ℤ c.flush_max_rows
unfolding worker_options
load_rows-lt os c db dec P env n s h v =
    let valid = ((load-settings os c).0 h).0 in
    let positive : 0 < pos_part c.flush_max_rows = omega (arith, valid.rows) in
    let below = after_read_rows-lt db dec (worker_options c) P env n s positive v in
    let e = not_negative c.flush_max_rows valid.rows in omega (arith, below, e)
