-- ===== src/Consumer/Delivery/Runs.antt =====
-- At-least-once delivery over whole runs of the worker.
use mathlib.Core.List.{Mem, mem-cons_self, mem-cons_of_mem}
use remnanode_exporter.Consumer.{
  Decoder, Options, Message, FlushEnv, Round, ReadAnswer, new_worker, run,
}
use remnanode_exporter.Consumer.Delivery.{IsSound, IsAccounted}
use remnanode_exporter.Consumer.Delivery.Steps.{
  consume-IsSound, flush-IsSound, drop_buffer-IsSound, emit-IsSound,
}
use remnanode_exporter.Consumer.Entries.{deliveries}
use remnanode_exporter.Consumer.Walk.{RunLaws, run_walk}
use remnanode_exporter.Events.{acks, stream_lag, group_created}
use remnanode_exporter.Model.{Time}
use remnanode_exporter.Prelude.{String, refl, Option, List, [], ◌∷◌, Text, All-split, All}

module _ {A : Type 0} where
  All-mem_of : (xs ys : List A) → ((a : A) → Mem a xs → Mem a ys) → All (λ a. Mem a ys) xs
  All-mem_of [] ys h = tt
  All-mem_of (x ∷ xs) ys h =
      (h x mem-cons_self, All-mem_of xs ys (λ a m. h a (mem-cons_of_mem x m)))

pub new_worker-IsSound :
    (dec : Decoder) (P : Message → Type 0) (now : Time) → IsSound dec P (new_worker now)
unfolding new_worker
new_worker-IsSound dec P now = record {
  held = [];
  held_hold = tt;
  pending_held = refl;
  rows_held = refl;
  accounted = tt;
}

module _ (db : String) (dec : Decoder) (opt : Options) (P : Message → Type 0) where
  -- a run keeps the buffer sound when `P` holds of all that it takes in
  pub IsSound-walk : RunLaws db dec opt (λ es s t. All P es → IsSound dec P s → IsSound dec P t)
  IsSound-walk = record {
    steps = record {
      same = λ s p h. h;
      trans = λ es fs s t u f g p h. let (pe, pf) = All-split P es fs p in g pf (f pe h);
      consumes = λ msg s p h. consume-IsSound db dec opt P msg s p.0 h;
      flushes = λ env s p h. flush-IsSound db dec opt P env s h;
      drops = λ now s p h. drop_buffer-IsSound db dec opt P now s h;
      reports = λ n s p h. emit-IsSound db dec opt P (stream_lag dec.stream n ∷ []) s refl h;
    };
    leaves = λ es s t f p h. f tt h;
    creates = λ start s p h.
        emit-IsSound db dec opt P (group_created dec.stream opt.group start ∷ []) s refl h;
  }

-- At-least-once delivery: in any run of a new worker, whatever Redis, ClickHouse and the clock do,
-- every id that was acknowledged is the id of an entry of an answer to the recovery (of its first
-- stream) or of a round before the one that finds the worker stopped, and all the rows of that entry
-- (none when it does not decode) stand in what was stored in the decoder's table.
pub run-IsAccounted :
    (db : String) (dec : Decoder) (opt : Options) (now : Time) (group : Option Text)
    (recovery : List (ReadAnswer × FlushEnv)) (rounds : List Round)
    → All
        (IsAccounted dec
          (λ msg. Mem msg (deliveries db dec opt recovery rounds))
          (run db dec opt group recovery rounds (new_worker now)).1.log)
        (acks (run db dec opt group recovery rounds (new_worker now)).1.log)
run-IsAccounted db dec opt now group recovery rounds =
    let taken = deliveries db dec opt recovery rounds in
    let P : Message → Type 0 = λ msg. Mem msg taken in
    (run_walk db dec opt _ (IsSound-walk db dec opt P) group recovery rounds (new_worker now)
      (All-mem_of taken taken (λ a m. m)) (new_worker-IsSound dec P now)).accounted
