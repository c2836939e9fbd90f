-- ===== src/Tests/Consumer.antt =====
-- Runs of internal/consumer and internal/sink at concrete entries.
use remnanode_exporter.Strings.{contains, has_prefix}
use remnanode_exporter.Consumer.Delivery.Carries.{IsHealthy}
use remnanode_exporter.Consumer.Delivery.Progress.{Delivered, run-Delivered}
use remnanode_exporter.Consumer.Entries.{deliveries}
use remnanode_exporter.Consumer.Delivery.Runs.{run-IsAccounted}
use remnanode_exporter.Sink.Outcome.{insert_ok_iff, Answers}
use remnanode_exporter.Model.{nil, bad_users_json}
use remnanode_exporter.Consumer.Flush.{shutdown_saves, flush-FlushSpec, FlushSpec}
use remnanode_exporter.Consumer.Delivery.{IsAccounted}
use remnanode_exporter.Events.{acks, u8}
use remnanode_exporter.Sink.{append_all, insert, Conn}
use remnanode_exporter.Prelude.{
  String, ◌≡◌, refl, true, none, some, List, [], ◌∷◌, ◌++◌, Text, codes, All, ok, err, pos,
}
use mathlib.Core.List.{Mem}
use remnanode_exporter.Consumer.{
  is_busy_group, first_stream, ensure_group, ReadAnswer, failed, timeout, stop, entries, run_loop,
  flush, new_worker, work, run, Round, Message, RoundEnv, FlushEnv, Options, Decoder, State,
}

abbrev pub decoder : Decoder
decoder = record {
  stream = "s";
  table = "t";
  columns = "n" ∷ [];
  decode = λ f. elim f [ [] ↦ err bad_users_json | v ∷ vs ↦ ok ((u8 1 ∷ []) ∷ []) ];
}

abbrev pub options : Options
options = record {
  group = codes "g";
  consumer = codes "c";
  start_from_beginning = true;
  flush_interval = pos 10;
  flush_max_rows = 2;
}

abbrev conn : Conn
conn = record { prepares = true; accepts = λ row. true; sends = true }

abbrev pub flush_env : FlushEnv
flush_env = record { conn = conn; acks_ok = true; now = pos 7 }

abbrev pub round_env : RoundEnv
round_env = record { flush_check = pos 5; flush_env = flush_env; lag_check = pos 6; lag = some 3 }

abbrev pub message : String → Message
message id = record { id = id; values = ("k", nil) ∷ [] }

abbrev bad_message : Message
bad_message = record { id = "9-0"; values = [] }

abbrev pub held : State
held = record {
  worker = record { rows = (u8 1 ∷ []) ∷ []; pending = "1-0" ∷ []; last_flush = pos 0 };
  log = [];
}

abbrev pub rounds : List Round
rounds =
    work none (entries ((message "2-0" ∷ bad_message ∷ []) ∷ [])) round_env
    ∷ work (some (some (message "3-0" ∷ []))) timeout round_env
    ∷ stop flush_env
    ∷ []

abbrev final : State
final = (run "db" decoder options none [] rounds (new_worker (pos 0))).1

run-IsAccounted_example :
    All
      (IsAccounted decoder (λ msg. Mem msg (deliveries "db" decoder options [] rounds)) final.log)
      (acks final.log)
run-IsAccounted_example = run-IsAccounted "db" decoder options (pos 0) none [] rounds

flush-FlushSpec_example :
    FlushSpec "db" decoder options flush_env held
      (flush "db" decoder options flush_env held).0
      (flush "db" decoder options flush_env held).1
flush-FlushSpec_example = flush-FlushSpec "db" decoder options flush_env held (λ h. cc)

shutdown_saves_example :
    FlushSpec "db" decoder options flush_env held
      (ok tt)
      (run_loop "db" decoder options (stop flush_env ∷ rounds) held)
shutdown_saves_example =
    shutdown_saves "db" decoder options flush_env rounds held (λ h. cc) (refl, (refl, tt), refl)

insert_ok_iff_example : Answers "db" conn "t" ("n" ∷ []) ((u8 1 ∷ []) ∷ [])
unfolding insert append_all
insert_ok_iff_example = (insert_ok_iff "db" conn "t" ("n" ∷ []) (u8 1 ∷ []) []).0 refl

pub flush_env-IsHealthy : IsHealthy flush_env
flush_env-IsHealthy = record {
  prepares = refl;
  accepts = λ row. refl;
  sends = refl;
  acks_ok = refl;
}

abbrev two_rounds : List Round
two_rounds =
    work none (entries ((message "2-0" ∷ bad_message ∷ []) ∷ [])) round_env
    ∷ work (some (some (message "3-0" ∷ []))) failed round_env
    ∷ []

-- one entry that was read before a restart, with a group that exists
abbrev pub recovery : List (ReadAnswer × FlushEnv)
recovery = (entries ((message "1-0" ∷ []) ∷ []), flush_env) ∷ (entries ([] ∷ []), flush_env) ∷ []

abbrev pub busy : Text
busy = codes "BUSYGROUP exists"

pub busy_ok : (ensure_group "db" decoder options (some busy) (new_worker (pos 0))).0 ≡ ok tt
unfolding ensure_group is_busy_group contains has_prefix
busy_ok = refl

run-Delivered_example :
    Delivered "db" decoder options
      (message "1-0" ∷ message "2-0" ∷ bad_message ∷ message "3-0" ∷ [])
      (run "db" decoder options
        (some busy)
        recovery
        (two_rounds ++ work none timeout round_env ∷ [])
        (new_worker (pos 0))).1
unfolding first_stream
run-Delivered_example =
    run-Delivered "db" decoder options (some busy) recovery two_rounds round_env (pos 0) busy_ok
      (flush_env-IsHealthy, (flush_env-IsHealthy, tt))
      (flush_env-IsHealthy, (flush_env-IsHealthy, tt)) flush_env-IsHealthy
