-- ===== src/Jobs/Pump.antt =====
-- The timer loop of the dispatcher (packages/repository-jobs/src/delivery.ts,
-- `startRepositoryAnalysisDeliveryPump`). The promise `running` is whether a round is under way.
pub mod Rounds
use stack_lens.Base.Tests.{ℕ, suc, ◌-◌, ◌≤◌, ◌≡◌, Bool, true, false, ◌||◌, if◌then◌else◌}

-- `pending` counts the timeouts that have neither fired nor been cleared, and `rounds` the calls of
-- `dispatchReady`.
pub record Pump : Type 0 where
  pub stopped : Bool
  pub running : Bool
  pub pending : ℕ
  pub rounds : ℕ

abbrev pub schedule : Pump → Pump
schedule p = if p.stopped then p else record p { pending = suc p.pending }

-- `run`, up to its `await`.
abbrev pub run : Pump → Pump
run p = if p.stopped || p.running then p else record p { running = true; rounds = suc p.rounds }

-- The `finally` block of `run`.
abbrev pub settle : Pump → Pump
settle p = schedule (record p { running = false })

-- A timeout fires.
abbrev pub fire : Pump → Pump
fire p = run (record p { pending = p.pending - 1 })

-- `stop`, up to its `await`; clearing a timeout that has fired does nothing.
abbrev pub stop : Pump → Pump
stop p = record p { stopped = true; pending = p.pending - 1 }

abbrev pub start_pump : Pump
start_pump = run (record { stopped = false; running = false; pending = 0; rounds = 0 })

pub data Step : Pump → Pump → Type 0 where
  fires : (p : Pump) → 1 ≤ p.pending → Step p (fire p)
  settles : (p : Pump) → p.running ≡ true → Step p (settle p)
  stops : (p : Pump) → Step p (stop p)

pub data Reachable : Pump → Type 0 where
  start : Reachable start_pump
  next : {p q : Pump} → Reachable p → Step p q → Reachable q
