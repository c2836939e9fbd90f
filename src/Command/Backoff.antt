-- ===== src/Command/Backoff.antt =====
-- How long waitFor waits, and when it ends.
use remnanode_exporter.Prelude.{
  ℕ, ◌*◌, ◌≡◌, refl, sym, ◌↔◌, ◌⊎◌, inl, inr, true, false, List, [], ◌∷◌, arith, ◌==◌,
  if◌then◌else◌, Bool-cases, subst,
}
use remnanode_exporter.Command.{stopped, wait_for, wait_loop, next_backoff, nanos, Probe, ready}

-- the waits from one backoff on: each doubles the one before until it is 16 seconds
abbrev pub IsSchedule : ℕ → List ℕ → Type 0
IsSchedule n [] = Unit
IsSchedule n (w ∷ ws) = (w ≡ n * nanos) × IsSchedule (if n == 16 then 16 else n * 2) ws

-- the probe succeeds, and no probe before it was followed by a cancellation
pub data Reaches : List Probe → Type 0 where
  now : {p : Probe} {ps : List Probe} → p.succeeds ≡ true → Reaches (p ∷ ps)
  later :
      {p : Probe} {ps : List Probe}
      → p.succeeds ≡ false
      → p.cancelled ≡ false
      → p.interrupted ≡ false
      → Reaches ps
      → Reaches (p ∷ ps)

-- the backoffs that the loop can have, in seconds
abbrev IsBackoff : ℕ → Type 0
IsBackoff n = (n ≡ 1) ⊎ (n ≡ 2) ⊎ (n ≡ 4) ⊎ (n ≡ 8) ⊎ (n ≡ 16)

next_backoff_lem :
    (n : ℕ) → IsBackoff n → next_backoff (n * nanos) ≡ (if n == 16 then 16 else n * 2) * nanos
unfolding next_backoff
next_backoff_lem n h = ground arith

next-IsBackoff : (n : ℕ) → IsBackoff n → IsBackoff (if n == 16 then 16 else n * 2)
next-IsBackoff n h = ground arith

wait_loop-IsSchedule :
    (ps : List Probe) (n : ℕ) → IsBackoff n → IsSchedule n (wait_loop (n * nanos) ps).1
unfolding wait_loop
wait_loop-IsSchedule [] n h = tt
wait_loop-IsSchedule (p ∷ ps) n h =
    let m = if n == 16 then 16 else n * 2 in
    let rest : IsSchedule m (wait_loop (next_backoff (n * nanos)) ps).1 =
      subst (λ b. IsSchedule m (wait_loop b ps).1) (sym (next_backoff_lem n h))
        (wait_loop-IsSchedule ps m (next-IsBackoff n h)) in
    elim (Bool-cases p.succeeds) [
      | inl e ↦ rw e tt
      | inr e ↦ elim (Bool-cases p.cancelled) [
        | inl e' ↦ rw (e, e') tt
        | inr e' ↦ elim (Bool-cases p.interrupted) [
          | inl e'' ↦ rw (e, e', e'') (refl, tt)
          | inr e'' ↦ rw (e, e', e'') (refl, rest)
        ]
      ]
    ]

-- Whatever the dependency and the context answer, the waits of waitFor are 1, 2, 4, 8 and then 16
-- seconds, each as often as it comes up in that order: none is longer than 16 seconds.
pub wait_for-IsSchedule : (ps : List Probe) → IsSchedule 1 (wait_for ps).1
unfolding wait_for
wait_for-IsSchedule ps = wait_loop-IsSchedule ps 1 (inl refl)

wait_loop_ready : (ps : List Probe) (n : ℕ) → (wait_loop n ps).0 ≡ ready → Reaches ps
unfolding wait_loop
wait_loop_ready [] n h = cc
wait_loop_ready (p ∷ ps) n h = elim (Bool-cases p.succeeds) [
  | inl e ↦ now e
  | inr e ↦ elim (Bool-cases p.cancelled) [
    | inl e' ↦ let z : stopped ≡ ready = rw (e, e') at h in cc
    | inr e' ↦ elim (Bool-cases p.interrupted) [
      | inl e'' ↦ let z : stopped ≡ ready = rw (e, e', e'') at h in cc
      | inr e'' ↦ later e e' e'' (wait_loop_ready ps (next_backoff n) (rw (e, e', e'') at h))
    ]
  ]
]

ready_wait_loop : (ps : List Probe) → Reaches ps → (n : ℕ) → (wait_loop n ps).0 ≡ ready
unfolding wait_loop
ready_wait_loop _ (now e) n = rw e refl
ready_wait_loop _ (later {ps = ps} e e' e'' h) n =
    rw (e, e', e'') (ready_wait_loop ps h (next_backoff n))

-- waitFor returns with no error exactly when some probe succeeds and the context was cancelled neither
-- at nor in the wait behind any probe before it.
pub wait_for_ready_iff : (ps : List Probe) → ((wait_for ps).0 ≡ ready) ↔ Reaches ps
unfolding wait_for
wait_for_ready_iff ps = (wait_loop_ready ps nanos, λ h. ready_wait_loop ps h nanos)
