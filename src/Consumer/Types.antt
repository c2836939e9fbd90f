-- ===== src/Consumer/Types.antt =====
-- internal/consumer/consumer.go: the worker's buffer, its options, and what its environment answers.
use remnanode_exporter.Prelude.{ℕ, String, Bool, Option, List, Text, Result, ℤ}
use remnanode_exporter.Model.{Time, Fields, ParseError}
use remnanode_exporter.Events.{Row, Event}
use remnanode_exporter.Sink.{Conn}

-- Decoder
pub record Decoder : Type 0 where
  pub stream : String
  pub table : String
  pub columns : List String
  pub decode : Fields → Result ParseError (List Row)

-- Options, less Block, Count and ClaimMinIdle, which only Redis and the claim ticker are given
pub record Options : Type 0 where
  pub group : Text
  pub consumer : Text
  pub start_from_beginning : Bool
  pub flush_interval : ℤ
  pub flush_max_rows : ℕ

-- redis.XMessage
pub record Message : Type 0 where
  pub id : String
  pub values : Fields

-- the buffer of Worker; its clients, its decoder and its options are parameters of the section
pub record Worker : Type 0 where
  pub rows : List Row
  pub pending : List String
  pub last_flush : Time

-- the worker and what it has done so far
pub record State : Type 0 where
  pub worker : Worker
  pub open worker use *
  pub log : List Event

-- what a flush meets: ClickHouse, whether XACK succeeds, and the clock behind it
pub record FlushEnv : Type 0 where
  pub conn : Conn
  pub acks_ok : Bool
  pub now : Time

-- XREADGROUP: redis.Nil, another error, or the entries of each stream
pub data ReadAnswer : Type 0 where
  timeout : ReadAnswer
  failed : ReadAnswer
  entries : List (List Message) → ReadAnswer

-- the clock at the two tests of time.Since, a flush, and XPENDING with the count that it reports
pub record RoundEnv : Type 0 where
  pub flush_check : Time
  pub flush_env : FlushEnv
  pub lag_check : Time
  pub lag : Option ℕ

-- one turn of the loop of Run, by the case that select takes
pub data Round : Type 0 where
  -- ctx.Done(): the last flush
  stop : FlushEnv → Round
  -- the claim ticker fired (`some`, with XAUTOCLAIM's answer) or not, then a read
  work : Option (Option (List Message)) → ReadAnswer → RoundEnv → Round
