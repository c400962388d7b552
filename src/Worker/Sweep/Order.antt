-- ===== src/Worker/Sweep/Order.antt =====
-- Sweeps come one at a time, and none begins once the sweeper is stopped.
use stack_lens.Base.Tests.{
  ℕ, suc, ◌≤◌, ◌≡◌, refl, ◌⊎◌, inl, inr, Bool, true, false, not, ◌||◌, ◌==◌, Option, none, some,
  arith, Bool-cases,
}
use stack_lens.Worker.Sweep.{
  Sweeper, is_busy, settle, purged, failed, fire, start_sweeper, Step, fires, purges, connects,
  fails, stops, Reachable, start, next,
}

-- A sweeper that is not stopped either sweeps or has one timeout pending, never both; a stopped one
-- has none pending.
pub IsTicking : Sweeper → Type 0
IsTicking w =
    (w.stopped ≡ false → (is_busy w.phase ≡ not (w.pending == 1)) × (w.pending ≤ 1))
    × (w.stopped ≡ true → w.pending ≡ 0)

Step-IsTicking : {v w : Sweeper} → Step v w → IsTicking v → IsTicking w
unfolding IsTicking
Step-IsTicking (fires w due) v = (λ live. ground arith, λ dead. ground arith)
Step-IsTicking (purges w c at) v = (λ live. ground arith, λ dead. ground arith)
Step-IsTicking (connects w at) v = (λ live. ground arith, λ dead. ground arith)
Step-IsTicking (fails w by_abort at) v = (λ live. ground arith, λ dead. ground arith)
Step-IsTicking (stops w) v = (λ live. cc, λ dead. ground arith)

start_sweeper-IsTicking :
    (interval : Option ℕ) (w : Sweeper) → start_sweeper interval ≡ some w → IsTicking w
unfolding IsTicking start_sweeper
start_sweeper-IsTicking none w h = (λ live. ground arith, λ dead. ground arith)
start_sweeper-IsTicking (some ms) w h = (λ live. ground arith, λ dead. ground arith)

Reachable-IsTicking : {interval : Option ℕ} {w : Sweeper} → Reachable interval w → IsTicking w
Reachable-IsTicking {interval = i} (start w e) = start_sweeper-IsTicking i w e
Reachable-IsTicking (next r s) = Step-IsTicking s (Reachable-IsTicking r)

-- A step begins a sweep only if the sweeper is not stopped and no sweep is under way; and once it
-- is stopped it stays so and begins no sweep and no purge of connections.
pub IsOrderly : Sweeper → Sweeper → Type 0
IsOrderly v w =
    ((w.sweeps ≡ v.sweeps)
      ⊎ ((w.sweeps ≡ suc v.sweeps) × (v.stopped ≡ false) × (is_busy v.phase ≡ false)))
    × (v.stopped ≡ true
        → (w.stopped ≡ true) × (w.sweeps ≡ v.sweeps) × (w.connection_sweeps ≡ v.connection_sweeps))

fire-IsOrderly : (w : Sweeper) → IsOrderly w (fire w)
unfolding IsOrderly
fire-IsOrderly w = elim (Bool-cases (w.stopped || is_busy w.phase)) [
  | inl e ↦ rw e (inl refl, λ h. (h, refl, refl))
  | inr e ↦ rw e (inr (refl, ground (arith, e), ground (arith, e)), λ h. ground (arith, e, h))
]

settle-IsOrderly : (w : Sweeper) → IsOrderly w (settle w)
unfolding IsOrderly
settle-IsOrderly w = elim (Bool-cases w.stopped) [
  | inl e ↦ rw e (inl refl, λ h. (refl, refl, refl))
  | inr e ↦ rw e (inl refl, λ h. cc)
]

purged-IsOrderly : (c : Bool) (w : Sweeper) → IsOrderly w (purged c w)
unfolding IsOrderly
purged-IsOrderly c w = elim (Bool-cases w.stopped) [
  | inl e ↦ rw e (inl refl, λ h. (refl, refl, refl))
  | inr e ↦ elim (Bool-cases c) [
    | inl k ↦ rw (e, k) (inl refl, λ h. cc)
    | inr k ↦ rw (e, k) (inl refl, λ h. cc)
  ]
]

failed-IsOrderly : (by_abort : Bool) (w : Sweeper) → IsOrderly w (failed by_abort w)
unfolding IsOrderly
failed-IsOrderly by_abort w = elim (Bool-cases w.stopped) [
  | inl e ↦ elim (Bool-cases by_abort) [
    | inl k ↦ rw (e, k) (inl refl, λ h. (refl, refl, refl))
    | inr k ↦ rw (e, k) (inl refl, λ h. (refl, refl, refl))
  ]
  | inr e ↦ rw e (inl refl, λ h. cc)
]

Step-IsOrderly : {v w : Sweeper} → Step v w → IsOrderly v w
unfolding IsOrderly
Step-IsOrderly (fires w due) = fire-IsOrderly w
Step-IsOrderly (purges w c at) = purged-IsOrderly c w
Step-IsOrderly (connects w at) = settle-IsOrderly w
Step-IsOrderly (fails w by_abort at) = failed-IsOrderly by_abort w
Step-IsOrderly (stops w) = (inl refl, λ h. (refl, refl, refl))

-- Whatever timeouts fire, purges resolve or fail and stops are called, in any order: until it is
-- stopped the sweeper either sweeps or has one timeout pending, never both; and the next step begins
-- a sweep only if none is under way, and once it is stopped neither a sweep nor a purge of
-- connections.
pub sweep_lem :
    {interval : Option ℕ} {v w : Sweeper}
    → Reachable interval v
    → Step v w
    → IsTicking v × IsOrderly v w
sweep_lem r s = (Reachable-IsTicking r, Step-IsOrderly s)
