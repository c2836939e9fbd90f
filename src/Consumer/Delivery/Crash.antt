-- ===== src/Consumer/Delivery/Crash.antt =====
-- Two runs of a worker, the second behind a crash or a stop of the first.
use remnanode_exporter.Consumer.Delivery.Carries.{IsHealthyRound, IsHealthy}
use remnanode_exporter.Consumer.Delivery.Restart.{recovered}
use remnanode_exporter.Consumer.Entries.{round_entries, deliveries}
use remnanode_exporter.Consumer.Delivery.Runs.{run-IsAccounted}
use remnanode_exporter.Model.{Time}
use remnanode_exporter.Consumer.Delivery.Progress.{run-Delivered, Delivered}
use mathlib.Core.Logic.Or
use mathlib.Core.Logic.{◌∨₁◌, ∥∥₁_prop, ∥∥₁_map}
use mathlib.Core.List.{
  mem-append, mem-map_of_mem, Mem, mem-append_left, mem-append_right, not-mem-nil,
  eq-or-mem_of_mem-cons,
}
use remnanode_exporter.Events.{Event, Row, acks, stored, acked_by, stored_by}
use remnanode_exporter.Consumer.{
  timeout, work, ensure_group, new_worker, run, Options, State, Round, FlushEnv, RoundEnv,
  ReadAnswer, Decoder, Message,
}
use remnanode_exporter.Consumer.Delivery.{rows_of, IsAccounted, IsStored, IsStored-append}
use remnanode_exporter.Prelude.{
  String, ◌≡◌, refl, sym, ◌∙◌, Option, none, List, [], ◌∷◌, ◌++◌, append_assoc, Text, concat_map,
  All, ok, subst, concat_map-append,
}

module _ {A : Type 0} where
  All-mem : (P : A → Type 0) (xs : List A) (a : A) → All P xs → Mem a xs → ∥ P a ∥₁
  All-mem P [] a h m = absurd (not-mem-nil m)
  All-mem P (x ∷ xs) a (p, ps) m =
      Or.elim ∥∥₁_prop (eq-or-mem_of_mem-cons m) (λ e. ∣ subst P (sym e) p ∣₁) (All-mem P xs a ps)

module _ {A : Type 0} (f : A → List Row) (a : A) where
  -- the lists around that of `a` in the list of all
  abbrev Around : List Row → Type 0
  Around all = (before : List Row) × (after : List Row) × (all ≡ before ++ f a ++ after)

  Around-cons : (xs : List Row) (all : List Row) → Around all → Around (xs ++ all)
  Around-cons xs all (before, after, e) = (xs ++ before, after, rw e (simp append_assoc))

  mem-concat_map : (xs : List A) → Mem a xs → ∥ Around (concat_map f xs) ∥₁
  mem-concat_map [] m = absurd (not-mem-nil m)
  mem-concat_map (x ∷ xs) m =
      Or.elim ∥∥₁_prop (eq-or-mem_of_mem-cons m) (λ e. ∣ ([], concat_map f xs, rw e refl) ∣₁)
        (λ h. ∥∥₁_map (mem-concat_map xs h) (Around-cons (f x) (concat_map f xs)))

-- The entry is acknowledged and its rows are stored.
pub record IsKept (dec : Decoder) (log : List Event) (msg : Message) : Type 0 where
  pub acked_id : Mem msg.id (acks log)
  pub rows_stored : ∥ IsStored dec log msg ∥₁

IsKept-prop : {dec : Decoder} {log : List Event} {msg : Message} → IsProp (IsKept dec log msg)
IsKept-prop = hlevel

module _ (dec : Decoder) (first second : List Event) (msg : Message) where
  IsKept-first : IsKept dec first msg → IsKept dec (first ++ second) msg
  IsKept-first h = record {
    acked_id =
        rw (concat_map-append acked_by first second) (mem-append_left (acks second) h.acked_id);
    rows_stored = ∥∥₁_map h.rows_stored (IsStored-append dec first second msg);
  }

  IsStored-second : IsStored dec second msg → IsStored dec (first ++ second) msg
  IsStored-second h = record {
    before = stored dec.table first ++ h.before;
    after = h.after;
    split = rw (concat_map-append (stored_by dec.table) first second, h.split) (simp append_assoc);
  }

  IsKept-second : IsKept dec second msg → IsKept dec (first ++ second) msg
  IsKept-second h = record {
    acked_id =
        rw (concat_map-append acked_by first second) (mem-append_right (acks first) h.acked_id);
    rows_stored = ∥∥₁_map h.rows_stored IsStored-second;
  }

-- an acknowledged entry of a run, when no other entry has its id
accounted-IsKept :
    (dec : Decoder) (es : List Message) (log : List Event) (msg : Message)
    → ((m n : Message) → Mem m es → Mem n es → m.id ≡ n.id → m ≡ n)
    → All (IsAccounted dec (λ m. Mem m es) log) (acks log)
    → Mem msg es
    → Mem msg.id (acks log)
    → IsKept dec log msg
accounted-IsKept dec es log msg unique accounted m acked = record {
  acked_id = acked;
  rows_stored =
      ∥∥₁_map (All-mem (IsAccounted dec (λ m. Mem m es) log) (acks log) msg.id accounted acked)
        λ a. subst (IsStored dec log) (unique a.msg msg a.holds m a.same) a.rows_stored;
}

module _ (db : String) (dec : Decoder) (opt : Options) where
  Delivered-IsKept :
      (es : List Message) (t : State) (msg : Message)
      → Delivered db dec opt es t
      → Mem msg es
      → IsKept dec t.log msg
  Delivered-IsKept es t msg d m = record {
    acked_id = rw d.acked_ids (mem-map_of_mem (λ (m : Message). m.id) m);
    rows_stored =
        ∥∥₁_map (mem-concat_map (rows_of dec) msg es m) λ (before, after, e). record {
          before = before;
          after = after;
          split = d.stored_rows ∙ e;
        };
  }

  -- Nothing is lost over a crash: take any run of a worker, whatever Redis, ClickHouse and the clock
  -- do and wherever it ends, and behind it a run of a new worker that the hypotheses of `run-Delivered`
  -- hold of: its group is there, ClickHouse takes every batch, XACK succeeds and a read times out at
  -- the end. Suppose that no two entries that Redis handed to the first run (in the first stream of an
  -- answer to its recovery, or to its loop before it was stopped) have the same id, and that Redis
  -- hands those that were not acknowledged out again to the recovery of the second. Then each of them,
  -- and every entry that the second took in, is acknowledged in one of the two, and all its rows
  -- stand in what the two stored in the decoder's table.
  pub restart-IsKept :
      (group_1 : Option Text) (recovery_1 : List (ReadAnswer × FlushEnv)) (rounds_1 : List Round)
      (now_1 : Time) (group : Option Text) (recovery : List (ReadAnswer × FlushEnv))
      (rounds : List Round) (env : RoundEnv) (now : Time)
      → ((m n : Message)
          → Mem m (deliveries db dec opt recovery_1 rounds_1)
          → Mem n (deliveries db dec opt recovery_1 rounds_1)
          → m.id ≡ n.id
          → m ≡ n)
      → ((m : Message)
          → Mem m (deliveries db dec opt recovery_1 rounds_1)
          → Mem m.id (acks (run db dec opt group_1 recovery_1 rounds_1 (new_worker now_1)).1.log)
            ∨₁ Mem m (recovered db dec opt recovery))
      → (ensure_group db dec opt group (new_worker now)).0 ≡ ok tt
      → All (λ (a : ReadAnswer × FlushEnv). IsHealthy a.1) recovery
      → All IsHealthyRound rounds
      → IsHealthy env.flush_env
      → (msg : Message)
      → Mem msg (
          deliveries db dec opt recovery_1 rounds_1
          ++ (recovered db dec opt recovery ++ concat_map round_entries rounds))
      → IsKept dec
          ((run db dec opt group_1 recovery_1 rounds_1 (new_worker now_1)).1.log
            ++ (run db dec opt group recovery
                (rounds ++ work none timeout env ∷ [])
                (new_worker now)).1.log)
          msg
  restart-IsKept group_1 recovery_1 rounds_1 now_1 group recovery rounds env now unique again e hr
        hs h msg m =
      let log = (run db dec opt group_1 recovery_1 rounds_1 (new_worker now_1)).1.log in
      let es = recovered db dec opt recovery ++ concat_map round_entries rounds in
      let served : Mem msg es → IsKept dec _ msg = λ n. IsKept-second dec log _ msg (
        Delivered-IsKept es _ msg (run-Delivered db dec opt group recovery rounds env now e hr hs h)
          n) in
      Or.elim IsKept-prop (mem-append.0 m)
        (λ old.
          Or.elim IsKept-prop (again msg old)
            (λ acked. IsKept-first dec log _ msg (
              accounted-IsKept dec (deliveries db dec opt recovery_1 rounds_1) log msg unique
                (run-IsAccounted db dec opt now_1 group_1 recovery_1 rounds_1) old acked))
            (λ n. served (mem-append_left _ n)))
        served
