-- ===== src/Tests/Command.antt =====
-- Runs of waitFor at concrete answers.
use remnanode_exporter.Command.Backoff.{
  wait_for_ready_iff, Reaches, wait_for-IsSchedule, IsSchedule,
}
use remnanode_exporter.Prelude.{refl, true, false, List, [], ◌∷◌}
use remnanode_exporter.Command.{wait_loop, wait_for, Probe}

abbrev failing : Probe
failing = record { succeeds = false; cancelled = false; interrupted = false }

abbrev probes : List Probe
probes =
    failing
    ∷ failing
    ∷ failing
    ∷ failing
    ∷ failing
    ∷ failing
    ∷ record { succeeds = true; cancelled = false; interrupted = false }
    ∷ []

wait_for-IsSchedule_example : IsSchedule 1 (wait_for probes).1
wait_for-IsSchedule_example = wait_for-IsSchedule probes

wait_for_ready_iff_example : Reaches probes
unfolding wait_for wait_loop
wait_for_ready_iff_example = (wait_for_ready_iff probes).0 refl
