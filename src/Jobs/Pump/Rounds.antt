-- ===== src/Jobs/Pump/Rounds.antt =====
-- The rounds of the pump do not overlap, and go on until it is stopped.
use stack_lens.Base.Tests.{
  suc, ◌≤◌, ◌≡◌, refl, true, false, arith, Bool-cases, inl, inr, ◌⊎◌, ◌==◌, ◌||◌, not,
}
use stack_lens.Jobs.Pump.{Pump, settle, fire, Step, fires, settles, stops, Reachable, start, next}

-- A pump that is not stopped either runs a round or has one timeout pending, never both; a stopped
-- one has none pending.
pub IsTicking : Pump → Type 0
IsTicking p =
    (p.stopped ≡ false → (p.running ≡ not (p.pending == 1)) × (p.pending ≤ 1))
    × (p.stopped ≡ true → p.pending ≡ 0)

Step-IsTicking : {p q : Pump} → Step p q → IsTicking p → IsTicking q
unfolding IsTicking
Step-IsTicking (fires p due) v = (λ live. ground arith, λ dead. ground arith)
Step-IsTicking (settles p busy) v = (λ live. ground arith, λ dead. ground arith)
Step-IsTicking (stops p) v = (λ live. cc, λ dead. ground arith)

Reachable-IsTicking : {p : Pump} → Reachable p → IsTicking p
unfolding IsTicking
Reachable-IsTicking start = (λ live. (refl, omega arith), λ dead. cc)
Reachable-IsTicking (next r s) = Step-IsTicking s (Reachable-IsTicking r)

-- A step keeps the number of rounds or begins one; it begins one only when the pump is not stopped
-- and no round is under way, and it never starts a stopped pump again.
pub IsOrderly : Pump → Pump → Type 0
IsOrderly p q =
    ((q.rounds ≡ p.rounds)
      ⊎ ((q.rounds ≡ suc p.rounds) × (p.stopped ≡ false) × (p.running ≡ false)))
    × (p.stopped ≡ true → q.stopped ≡ true)

fire-IsOrderly : (p : Pump) → IsOrderly p (fire p)
unfolding IsOrderly
fire-IsOrderly p = elim (Bool-cases (p.stopped || p.running)) [
  | inl e ↦ rw e (inl refl, λ h. h)
  | inr e ↦ rw e (inr (refl, ground (arith, e), ground (arith, e)), λ h. h)
]

settle-IsOrderly : (p : Pump) → IsOrderly p (settle p)
unfolding IsOrderly
settle-IsOrderly p = elim (Bool-cases p.stopped) [
  | inl e ↦ rw e (inl refl, λ h. refl)
  | inr e ↦ rw e (inl refl, λ h. h)
]

Step-IsOrderly : {p q : Pump} → Step p q → IsOrderly p q
unfolding IsOrderly
Step-IsOrderly (fires p due) = fire-IsOrderly p
Step-IsOrderly (settles p busy) = settle-IsOrderly p
Step-IsOrderly (stops p) = (inl refl, λ h. refl)

-- Whatever timeouts fire, rounds end and stops are called, in any order: until it is stopped the
-- pump either runs a round or has one timeout pending, never both, and a stopped one has none; and
-- a next step begins a round only if the pump is not stopped and no round is under way.
pub pump_lem : {p q : Pump} → Reachable p → Step p q → IsTicking p × IsOrderly p q
pump_lem r s = (Reachable-IsTicking r, Step-IsOrderly s)
