-- ===== src/Worker/Sweep.antt =====
-- The sweep of expired analyses (apps/worker/src/retention.ts, `startAnalysisRetentionPump`). A sweep
-- purges analyses and then, if there is such a step, GitHub connections; each may fail.
pub mod Order
use stack_lens.Base.Tests.{
  max_safe_integer, ℕ, suc, ◌-◌, ◌≤◌, ◌≡◌, Bool, true, false, not, ◌||◌, Option, none, some, ltb,
  ◌==◌, if◌then◌else◌, or_else,
}

pub data Phase : Type 0 where
  idle purging connecting : Phase

-- `pending` counts the timeouts that have neither fired nor been cleared; `sweeps` and
-- `connection_sweeps` count the calls of the two purges, and `errors` those of `onError`.
pub record Sweeper : Type 0 where
  pub stopped : Bool
  pub phase : Phase
  pub pending : ℕ
  pub sweeps : ℕ
  pub connection_sweeps : ℕ
  pub errors : ℕ

-- `running !== undefined`
abbrev pub is_busy : Phase → Bool
is_busy Phase.idle = false
is_busy Phase.purging = true
is_busy Phase.connecting = true

-- `run`, up to its `await`.
abbrev pub run : Sweeper → Sweeper
run w =
    if w.stopped || is_busy w.phase
    then w
    else record w { phase = Phase.purging; sweeps = suc w.sweeps }

-- The `finally` block of `run`.
abbrev pub settle : Sweeper → Sweeper
settle w =
    let ended : Sweeper = record w { phase = Phase.idle } in
    if w.stopped then ended else record ended { pending = suc ended.pending }

-- The purge of analyses resolved; `connects` is whether `purgeExpiredConnections` is given.
abbrev pub purged : Bool → Sweeper → Sweeper
purged connects w =
    if not w.stopped
    then (if connects
        then record w { phase = Phase.connecting; connection_sweeps = suc w.connection_sweeps }
        else settle w)
    else settle w

-- The `catch` block: an error is reported, except that of the abort.
abbrev pub failed : Bool → Sweeper → Sweeper
failed by_abort w =
    if not w.stopped || not by_abort then settle (record w { errors = suc w.errors }) else settle w

abbrev pub fire : Sweeper → Sweeper
fire w = run (record w { pending = w.pending - 1 })

-- `stop`, up to its `await`.
abbrev pub stop : Sweeper → Sweeper
stop w = record w { stopped = true; pending = w.pending - 1 }

-- `none` is the error of the interval; a missing interval is a minute.
unfoldable pub start_sweeper : Option ℕ → Option Sweeper
start_sweeper interval =
    let ms = or_else interval 60000 in
    if ms == 0 || ltb max_safe_integer ms
    then none
    else some (
        run (record {
          stopped = false;
          phase = Phase.idle;
          pending = 0;
          sweeps = 0;
          connection_sweeps = 0;
          errors = 0;
        }))

pub data Step : Sweeper → Sweeper → Type 0 where
  fires : (w : Sweeper) → 1 ≤ w.pending → Step w (fire w)
  purges : (w : Sweeper) (connects : Bool) → w.phase ≡ Phase.purging → Step w (purged connects w)
  connects : (w : Sweeper) → w.phase ≡ Phase.connecting → Step w (settle w)
  fails : (w : Sweeper) (by_abort : Bool) → is_busy w.phase ≡ true → Step w (failed by_abort w)
  stops : (w : Sweeper) → Step w (stop w)

pub data Reachable (interval : Option ℕ) : Sweeper → Type 0 where
  start : (w : Sweeper) → start_sweeper interval ≡ some w → Reachable interval w
  next : {v w : Sweeper} → Reachable interval v → Step v w → Reachable interval w
