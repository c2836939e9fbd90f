-- ===== src/Tests/Delivery.antt =====
-- Two runs of a worker, with a batch lost in the first.
use remnanode_exporter.Events.{stored}
use mathlib.Core.List.{Mem, mem-singleton, mem-cons_self}
use remnanode_exporter.Consumer.Delivery.Crash.{IsKept, restart-IsKept}
use remnanode_exporter.Consumer.Entries.{deliveries}
use remnanode_exporter.Consumer.Delivery.Restart.{recovered}
use remnanode_exporter.Consumer.{
  ensure_group, is_busy_group, Message, Round, FlushEnv, run, new_worker, work, stop, timeout,
  entries, first_stream,
}
use remnanode_exporter.Tests.Consumer.{
  decoder, options, message, flush_env, round_env, flush_env-IsHealthy, recovery, busy,
}
use text.Mathlib.TextEquality.{IsScalar-prop}
use remnanode_exporter.Strings.{contains, has_prefix}
use mathlib.Core.List.{Sublist}
use remnanode_exporter.Consumer.Delivery.Stored.{run-StoresSublist}
use remnanode_exporter.Consumer.Entries.{pending_entries, taken_in}
use remnanode_exporter.Consumer.Delivery.{rows_of}
use remnanode_exporter.Prelude.{
  ◌≡◌, refl, sym, ◌∙◌, inr, false, none, some, List, [], ◌∷◌, ◌++◌, concat_map, ok, pos, subst,
}

-- ClickHouse refuses the batch that the stopped worker still holds
abbrev refused : FlushEnv
refused = record flush_env { conn = record flush_env.conn { sends = false } }

abbrev lost : List Round
lost =
    work none (entries ((message "1-0" ∷ []) ∷ [])) (record round_env { flush_env = refused })
    ∷ stop refused
    ∷ []

Message-set : IsSet Message
Message-set = hlevel IsScalar-prop

only_one : (m : Message) → Mem m (deliveries "db" decoder options [] lost) → m ≡ message "1-0"
only_one m h = (mem-singleton Message-set).0 h

busy_now : (ensure_group "db" decoder options (some busy) (new_worker (pos 9))).0 ≡ ok tt
unfolding ensure_group is_busy_group contains has_prefix
busy_now = refl

restart-IsKept_example :
    IsKept decoder
      ((run "db" decoder options none [] lost (new_worker (pos 0))).1.log
        ++ (run "db" decoder options
            (some busy)
            recovery
            (work none timeout round_env ∷ [])
            (new_worker (pos 9))).1.log)
      (message "1-0")
restart-IsKept_example =
    restart-IsKept "db" decoder options none [] lost (pos 0) (some busy) recovery [] round_env
      (pos 9) (λ m n h k e. only_one m h ∙ sym (only_one n k))
      (λ m h.
        ∣ inr (
          subst (λ x. Mem x (recovered "db" decoder options recovery)) (sym (only_one m h))
            (unfold first_stream in mem-cons_self)) ∣₁)
      busy_now (flush_env-IsHealthy, (flush_env-IsHealthy, tt)) tt flush_env-IsHealthy
      (message "1-0") mem-cons_self

run-StoresSublist_example :
    (kept : List Message) × (stored "t"
        (run "db" decoder options (some busy) recovery lost (new_worker (pos 0))).1.log
      ≡ concat_map (rows_of decoder) kept)
    × Sublist kept (pending_entries "db" decoder options recovery ++ taken_in lost)
run-StoresSublist_example = run-StoresSublist "db" decoder options (pos 0) (some busy) recovery lost
