-- ===== src/Logged/Process.antt =====
-- The whole process: the workers that run of cmd/remnanode-exporter/main.go starts, and the Syncer. The
-- log is that of one behind the other.
use remnanode_exporter.Consumer
use remnanode_exporter.Consumer.{Decoder, Options, FlushEnv, ReadAnswer, new_worker}
use remnanode_exporter.Consumer.Delivery.{row_or_none}
use remnanode_exporter.Dict
use remnanode_exporter.Dict.Refresh
use remnanode_exporter.Events.{Event, Row}
use remnanode_exporter.Geoip.{Info}
use remnanode_exporter.Logged.{LogLaws}
use remnanode_exporter.Logged.Rows.{RowLaws}
use remnanode_exporter.Logged.Syncer
use remnanode_exporter.Logged.Worker
use remnanode_exporter.Model.{Fields, Time}
use remnanode_exporter.Netip.{Netip}
use remnanode_exporter.Panel.{Env}
use remnanode_exporter.Prelude.{String, Option, List, [], ◌∷◌, ◌++◌, Text, concat_map, All}

-- one worker, with what it meets in its run
pub record WorkerRun : Type 0 where
  pub dec : Decoder
  pub opt : Options
  pub started : Time
  pub group : Option Text
  pub recovery : List (ReadAnswer × FlushEnv)
  pub rounds : List Consumer.Round

-- the Syncer, with what it meets in its run
pub record SyncerRun : Type 0 where
  pub env : Env
  pub ip : Netip
  pub geo : Option (Text → Info)
  pub url : Text
  pub token : Text
  pub first_round : Refresh.Round
  pub first_reports : Refresh.Reports
  pub ticks : List Refresh.Tick

module _ (db : String) where
  abbrev pub worker_log : WorkerRun → List Event
  worker_log w =
      (Consumer.run db w.dec w.opt w.group w.recovery w.rounds (new_worker w.started)).1.log

  abbrev pub syncer_log : SyncerRun → List Event
  syncer_log s =
      (Refresh.run db s.env s.ip s.geo s.url s.token s.first_round s.first_reports s.ticks
        Dict.new).log

  abbrev pub process_log : List WorkerRun → SyncerRun → List Event
  process_log ws s = concat_map worker_log ws ++ syncer_log s

  module _ (P : String → List String → Row → Type 0) (Q : List Event → Type 0) (laws : LogLaws P Q)
      (made : RowLaws P) where
    -- `P` holds of the rows that the worker's decoder makes
    abbrev pub Makes : WorkerRun → Type 0
    Makes w = (f : Fields) → All (P w.dec.table w.dec.columns) (row_or_none w.dec (w.dec.decode f))

    workers_logged : (ws : List WorkerRun) → All Makes ws → Q (concat_map worker_log ws)
    workers_logged [] h = laws.empty
    workers_logged (w ∷ ws) (m, h) =
        laws.append (worker_log w) _
          (Worker.run_logged P Q laws db w.dec w.opt m w.group w.recovery w.rounds
            (new_worker w.started)
            (unfold new_worker in record { log_holds = laws.empty; rows_hold = tt })).log_holds
          (workers_logged ws h)

    pub process_logged : (ws : List WorkerRun) (s : SyncerRun) → All Makes ws → Q (process_log ws s)
    process_logged ws s h =
        laws.append (concat_map worker_log ws) (syncer_log s) (workers_logged ws h) (
          Syncer.run_logged P Q laws made db s.env s.ip s.geo s.url s.token s.first_round
            s.first_reports s.ticks Dict.new (unfold Dict.new in laws.empty))
