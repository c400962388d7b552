-- ===== src/Jobs/Examples.antt =====
-- The theorems about jobs at concrete inputs, and a queue that meets what is asked of one.
use stack_lens.Jobs.Pump.{start_pump, settle, fire, settles, fires, start, next}
use stack_lens.Jobs.Pump.Rounds.{IsTicking, IsOrderly, pump_lem}
use stack_lens.Persistence.Submission.{
  create_queued_repository_analysis_with_delivery, has_owner_pair, is_bound_to,
}
use stack_lens.Base.Tests.{
  arith, Bool-cases, ◌+◌, ◌≤◌, ◌≡◌, refl, true, false, none, some, List, [], ◌∷◌, ◌⊎◌, inl, inr,
  Bool, ◌||◌, sym, if◌then◌else◌,
}
use stack_lens.Base.Lists.{All}
use stack_lens.Base.Text.{Text, text, text_lt, ◌===◌, ===_iff}
use stack_lens.Base.Table.{lookup, insert_new}
use stack_lens.Persistence.Types.{ClaimedDelivery}
use stack_lens.Persistence.Outbox.{claim_deliveries}
use stack_lens.Persistence.History.{replay}
use stack_lens.Persistence.History.Validity.{replay-IsValid}
use stack_lens.Persistence.Samples.{analysis_id, submitted, token}
use stack_lens.Jobs.Payload.{
  Payload, AddedJob, parsed, job_for, parse_repository_analysis_job_payload,
}
use stack_lens.Jobs.Payload.Laws.{parse-job_for}
use stack_lens.Jobs.Backoff.{next_delivery_attempt, next_delivery_attempt_bounds}
use stack_lens.Jobs.Enqueue.{CreateCommand, input_of, create_repository_analysis_job}
use stack_lens.Jobs.Enqueue.Laws.{IsHonoured, create_repository_analysis_job_lem}
use stack_lens.Jobs.Dispatch.{
  JobQueue, Fate, dispatch_ready, dispatch_round, dispatch_delivery, threw,
}
use stack_lens.Jobs.Dispatch.Laws.{IsDelivered, dispatch_round-IsDelivered}
use stack_lens.Jobs.Dispatch.Liveness.{IsDone, dispatch_ready_delivers}

abbrev sample_payload : Payload
sample_payload = record {
  analysis_id = text "a1";
  repository_url = text "https://github.com/o/r";
  ref = some (text "main");
}

parse-job_for_example :
    parse_repository_analysis_job_payload (job_for sample_payload).payload ≡ parsed sample_payload
parse-job_for_example = parse-job_for sample_payload (refl, refl, refl)

next_delivery_attempt_bounds_example :
    (100 + 1000 ≤ next_delivery_attempt 3 100)
    × (next_delivery_attempt 3 100 ≤ 100 + 60000)
    × (next_delivery_attempt 3 100 ≤ next_delivery_attempt (3 + 2) 100)
    × (next_delivery_attempt (7 + 3) 100 ≡ 100 + 60000)
next_delivery_attempt_bounds_example = next_delivery_attempt_bounds 3 2 100

backoff_table :
    (next_delivery_attempt 1 0 ≡ 1000)
    × (next_delivery_attempt 6 0 ≡ 32000)
    × (next_delivery_attempt 7 0 ≡ 60000)
unfolding next_delivery_attempt
backoff_table = (refl, refl, refl)

abbrev IsIn : AddedJob → List AddedJob → Type 0
IsIn j [] = ⊥
IsIn j (k ∷ q) = (k ≡ j) ⊎ IsIn j q

abbrev has_key : Text → List AddedJob → Bool
has_key key [] = false
has_key key (k ∷ q) = k.job_key === key || has_key key q

has_key-job :
    (key : Text) (q : List AddedJob)
    → has_key key q ≡ true
    → (k : AddedJob) × (k.job_key ≡ key) × IsIn k q
has_key-job key [] h = cc
has_key-job key (k ∷ q) h = elim (Bool-cases (k.job_key === key)) [
  | inl same ↦ (k, (===_iff k.job_key key).0 same, inl refl)
  | inr other ↦ let (l, e, here) = has_key-job key q (ground (arith, h, other)) in (l, e, inr here)
]

-- A queue that ignores a job whose key it has.
abbrev deduped : AddedJob → List AddedJob → List AddedJob
deduped j q = if has_key j.job_key q then q else j ∷ q

deduped-holds :
    (j : AddedJob) (q : List AddedJob)
    → (k : AddedJob) × (k.job_key ≡ j.job_key) × IsIn k (deduped j q)
deduped-holds j q = elim (Bool-cases (has_key j.job_key q)) [
  | inl there ↦ rw there (has_key-job j.job_key q there)
  | inr new ↦ rw new (j, refl, inl refl)
]

deduped-own : (j k : AddedJob) (q : List AddedJob) → IsIn k (deduped j q) → IsIn k q ⊎ (k ≡ j)
deduped-own j k q h = elim (Bool-cases (has_key j.job_key q)) [
  | inl there ↦ inl (rw there at h)
  | inr new ↦ elim (rw new at h) [ inl same ↦ inr (sym same) | inr before ↦ inl before ]
]

deduped-on : (j k : AddedJob) (q : List AddedJob) → IsIn k q → IsIn k (deduped j q)
deduped-on j k q h = elim (Bool-cases (has_key j.job_key q)) [
  | inl there ↦ rw there h
  | inr new ↦ rw new (inr h)
]

abbrev list_queue : JobQueue
list_queue = record {
  Queue = List AddedJob;
  add = λ j q. (true, deduped j q);
  holds = λ q j. IsIn j q;
  add-holds = λ j q e. deduped-holds j q;
  add-own = deduped-own;
  holds_on = λ j k q mode h. deduped-on j k q h;
}

-- The job of the same analysis with another input is ignored.
duplicate_ignored :
    (list_queue.add
      (job_for (record sample_payload { ref = none }))
      (job_for sample_payload ∷ [])).1
    ≡ job_for sample_payload ∷ []
unfolding job_for ◌===◌
duplicate_ignored = refl

abbrev reliable : ClaimedDelivery → Fate
reliable c = record { mark_reaches = true; retry_reaches = true; marked_at = 30; retried_at = 30 }

submitted-IsDelivered : IsDelivered list_queue (replay submitted) []
unfolding replay lookup create_queued_repository_analysis_with_delivery has_owner_pair is_bound_to
    ◌===◌ insert_new
submitted-IsDelivered = record {
  own = λ k j a held stored key. absurd held;
  queued = λ j d a found done stored. elim (Bool-cases (analysis_id === j)) [
    | inl e ↦ ground (arith, rw e at found, done)
    | inr e ↦ ground (arith, rw e at found)
  ];
}

dispatch_round-IsDelivered_example :
    IsDelivered list_queue
      (dispatch_round list_queue true text_lt [] reliable token 20 (replay submitted, [])).1.0
      (dispatch_round list_queue true text_lt [] reliable token 20 (replay submitted, [])).1.1
dispatch_round-IsDelivered_example =
    dispatch_round-IsDelivered list_queue true text_lt [] reliable token 20 (replay submitted) []
      (replay-IsValid submitted) submitted-IsDelivered

dispatch_ready_delivers_example :
    All
      (IsDone (dispatch_ready list_queue text_lt [] reliable token 20 (replay submitted, [])).0)
      (claim_deliveries text_lt [] 25 token 20 60020 (replay submitted)).0
dispatch_ready_delivers_example =
    dispatch_ready_delivers list_queue reliable (λ k q. refl) (λ c. refl) text_lt [] token 20
      (replay submitted) [] (replay-IsValid submitted)

-- A round ended, and its timeout fires.
pump_lem_example :
    IsTicking (settle start_pump) × IsOrderly (settle start_pump) (fire (settle start_pump))
pump_lem_example =
    pump_lem (next start (settles start_pump refl)) (fires (settle start_pump) (omega arith))

-- A submission while every call of the dispatcher fails.
abbrev failing : ClaimedDelivery → Fate
failing c = record { mark_reaches = false; retry_reaches = false; marked_at = 30; retried_at = 30 }

abbrev create_command : CreateCommand
create_command = record {
  analysis_id = text "a9";
  repository_url = text "https://github.com/o/r";
  owner_github_id = none;
  github_connection_id = none;
  ref = none;
  created_at = 20;
  retention_expires_at = none;
}

create_repository_analysis_job_lem_example :
    IsHonoured
      (input_of create_command)
      (replay submitted)
      (create_queued_repository_analysis_with_delivery
        (input_of create_command)
        (replay submitted)).0
      (create_repository_analysis_job list_queue true text_lt [] failing token 20 create_command
        (replay submitted, []))
create_repository_analysis_job_lem_example =
    create_repository_analysis_job_lem list_queue true text_lt [] failing token 20 create_command
      (replay submitted) []

-- When its put-back does not reach the database, a dispatch throws.
failing_dispatch :
    (d : ClaimedDelivery)
    → (dispatch_delivery list_queue (failing d) d (replay submitted, [])).0 ≡ threw
unfolding dispatch_delivery
failing_dispatch d = refl
