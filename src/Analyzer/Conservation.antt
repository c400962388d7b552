-- ===== src/Analyzer/Conservation.antt =====
-- What becomes of the candidates in the priority stage (packages/analyzer-core/src/pipeline.ts).
use stack_lens.Base.Tests.{
  ℕ, ◌≡◌, refl, subst, sym, ◌∙◌, ap, ◌⊎◌, inl, inr, some, List, [], ◌∷◌, ◌++◌,
}
use stack_lens.Base.Text.{Text, text}
use stack_lens.Base.Distinct.{are_new}
use stack_lens.Contracts.{LimitationKind, AnalysisLimitation, FailureScope, PartialFailure}
use stack_lens.Rules.Priority.{FindingPriority}
use stack_lens.Analyzer.Types.{
  RuleDefinition, Fact, Candidate, Finding, Attempt, done, invariant_broken, crashed, Context,
  Prioritizer, Schemas, parsed,
}
use stack_lens.Analyzer.Validation.{finding_of, is_of_rule}
use stack_lens.Analyzer.Consistency.Stages.{bind_done, ensure_done, done_inj}
use stack_lens.Analyzer.Pipeline.{
  State, FailureCode, finding_id, finding_ids, limitation_ids, failure_ids, failure_limitation,
  partial_failure_of, add_failure, settle, try_priority, run_priorities,
}

-- The limitation says that this candidate was left out by this rule.
pub record IsOmission (rule : RuleDefinition) (c : Candidate) (l : AnalysisLimitation)
    : Type 0 where
  pub kind : l.kind ≡ LimitationKind.partial_failure
  pub message :
      l.message ≡ text "Finding " ++ (c.id ++ text " could not be prioritized and was omitted.")
  pub category : l.affected_categories ≡ c.category ∷ []
  pub rules : l.rule_ids ≡ rule.id ∷ []

-- The failure is one of this rule in this stage.
pub record IsFailure (rule : RuleDefinition) (at : ℕ) (f : PartialFailure) : Type 0 where
  pub scope : f.scope ≡ FailureScope.of_rule (record { id = rule.id; version = rule.version })
  pub code :
      (f.code ≡ text "priority_evaluation_failed") ⊎ (f.code ≡ text "priority_output_invalid")
  pub time : f.occurred_at ≡ at

-- Each candidate, in its order, is that of the next finding, or is named by the next limitation,
-- which comes with the next failure.
pub data Divides (rule : RuleDefinition) (at : ℕ)
    : List Candidate → List Finding → List AnalysisLimitation → List PartialFailure → Type 0 where
  nothing : Divides rule at [] [] [] []
  prioritized :
      {cs : List Candidate} {fs : List Finding} {ls : List AnalysisLimitation}
      {ps : List PartialFailure} (f : Finding)
      → Divides rule at cs fs ls ps
      → Divides rule at (f.candidate ∷ cs) (f ∷ fs) ls ps
  omitted :
      {cs : List Candidate} {fs : List Finding} {ls : List AnalysisLimitation}
      {ps : List PartialFailure} (c : Candidate) (l : AnalysisLimitation) (p : PartialFailure)
      → IsOmission rule c l
      → IsFailure rule at p
      → Divides rule at cs fs ls ps
      → Divides rule at (c ∷ cs) fs (l ∷ ls) (p ∷ ps)

-- From a first state to a second one, findings, limitations and failures that divide the candidates
-- are added, and nothing else changes.
pub record Conserves (rule : RuleDefinition) (at : ℕ) (cs : List Candidate) (s t : State)
    : Type 0 where
  pub findings : List Finding
  pub limitations : List AnalysisLimitation
  pub failures : List PartialFailure
  pub divides : Divides rule at cs findings limitations failures
  pub added : t ≡ record s {
    findings = s.findings ++ findings;
    limitations = s.limitations ++ limitations;
    partial_failures = s.partial_failures ++ failures;
  }

append-nil {ℓ} : {A : Type ℓ} (xs : List A) → xs ≡ xs ++ []
append-nil [] = refl
append-nil (x ∷ xs) = ap (λ l. x ∷ l) (append-nil xs)

append-one {ℓ} :
    {A : Type ℓ} (xs : List A) (y : A) (zs : List A) → (xs ++ (y ∷ [])) ++ zs ≡ xs ++ (y ∷ zs)
append-one [] y zs = refl
append-one (x ∷ xs) y zs = ap (λ l. x ∷ l) (append-one xs y zs)

nothing-Conserves : (rule : RuleDefinition) (at : ℕ) (s : State) → Conserves rule at [] s s
nothing-Conserves rule at s = record {
  findings = [];
  limitations = [];
  failures = [];
  divides = nothing;
  added = λ i. record s {
    findings = append-nil s.findings i;
    limitations = append-nil s.limitations i;
    partial_failures = append-nil s.partial_failures i;
  };
}

finding-Conserves :
    (rule : RuleDefinition) (at : ℕ) (c : Candidate) (cs : List Candidate) (f : Finding)
    (s u : State)
    → f.candidate ≡ c
    → Conserves rule at cs (record s { findings = s.findings ++ (f ∷ []) }) u
    → Conserves rule at (c ∷ cs) s u
finding-Conserves rule at c cs f s u e h = record {
  findings = f ∷ h.findings;
  limitations = h.limitations;
  failures = h.failures;
  divides =
      subst (λ d. Divides rule at (d ∷ cs) (f ∷ h.findings) h.limitations h.failures) e
        (prioritized f h.divides);
  added = h.added ∙ (λ i. record s {
    findings = append-one s.findings f h.findings i;
    limitations = s.limitations ++ h.limitations;
    partial_failures = s.partial_failures ++ h.failures;
  });
}

failure-Conserves :
    (rule : RuleDefinition) (at : ℕ) (code : FailureCode) (c : Candidate) (cs : List Candidate)
    (s u : State)
    → ((p : List Text) → IsFailure rule at (partial_failure_of rule at code (some c) p))
    → Conserves rule at cs (add_failure rule at code (some c) s) u
    → Conserves rule at (c ∷ cs) s u
failure-Conserves rule at code c cs s u failed h =
    let l = failure_limitation rule code (some c) (limitation_ids s.limitations) in
    let p = partial_failure_of rule at code (some c) (failure_ids s.partial_failures) in
    record {
      findings = h.findings;
      limitations = l ∷ h.limitations;
      failures = p ∷ h.failures;
      divides =
          omitted c l p (record { kind = refl; message = refl; category = refl; rules = refl })
            (failed _) h.divides;
      added = h.added ∙ (λ i. record s {
        findings = s.findings ++ h.findings;
        limitations = append-one s.limitations l h.limitations i;
        partial_failures = append-one s.partial_failures p h.failures i;
      });
    }

module _ (schemas : Schemas) {Project Metadata : Type 0} (context : Context Project Metadata)
    (at : ℕ) where
  finding_of_candidate :
      (rule : RuleDefinition) (c : Candidate) (priority : FindingPriority) (f : Finding)
      → finding_of schemas rule c priority ≡ done f
      → f.candidate ≡ c
  unfolding finding_of
  finding_of_candidate rule c priority f h =
      let (read, _, h1) = bind_done (parsed (schemas.read_priority priority)) _ f h in
      let (_, h2) = ensure_done (is_of_rule rule read.rule) _ f h1 in
      sym (ap Finding.candidate (done_inj _ f h2))

  try_priority_finding :
      (stage : Context Project Metadata) (facts : List Fact) (cs : List Candidate)
      (p : Prioritizer Project Metadata) (c : Candidate) (s t : State)
      → try_priority schemas context at stage facts cs p c s ≡ done t
      → (f : Finding) × (f.candidate ≡ c) × (t ≡ record s { findings = s.findings ++ (f ∷ []) })
  unfolding try_priority
  try_priority_finding stage facts cs p c s t h =
      let (emitted, _, h1) = bind_done (p.prioritize stage facts cs c) _ t h in
      let (f, found, h2) = bind_done (finding_of schemas p.definition c emitted) _ t h1 in
      let (_, h3) = ensure_done (are_new (finding_ids s.findings) (finding_id f ∷ [])) _ t h2 in
      (f, finding_of_candidate p.definition c emitted f found, sym (done_inj _ t h3))

  settle-Conserves :
      (stage : Context Project Metadata) (facts : List Fact) (ac : List Candidate)
      (p : Prioritizer Project Metadata) (c : Candidate) (cs : List Candidate) (s u : State)
      (outcome : Attempt State)
      → try_priority schemas context at stage facts ac p c s ≡ outcome
      → Conserves p.definition at cs
          (settle p.definition at FailureCode.priority_output_invalid
            FailureCode.priority_evaluation_failed
            (some c)
            s
            outcome)
          u
      → Conserves p.definition at (c ∷ cs) s u
  settle-Conserves stage facts ac p c cs s u (done t) e h =
      let (f, same, added) = try_priority_finding stage facts ac p c s t e in
      finding-Conserves p.definition at c cs f s u same
        (subst (λ t. Conserves p.definition at cs t u) added h)
  settle-Conserves stage facts ac p c cs s u invariant_broken e h =
      failure-Conserves p.definition at FailureCode.priority_output_invalid c cs s u
        (λ l. record { scope = refl; code = inr refl; time = refl }) h
  settle-Conserves stage facts ac p c cs s u crashed e h =
      failure-Conserves p.definition at FailureCode.priority_evaluation_failed c cs s u
        (λ l. record { scope = refl; code = inl refl; time = refl }) h

-- The priority stage adds findings, limitations and failures that divide its candidates, and changes
-- nothing else, whatever the prioritizer emits and whenever it throws: each candidate, in order, is
-- the one of the next finding, or the next limitation names it as omitted, with its category and
-- the rule, beside the next failure.
pub run_priorities-Conserves :
    (schemas : Schemas) {Project Metadata : Type 0} (context : Context Project Metadata) (at : ℕ)
    (stage : Context Project Metadata) (facts : List Fact) (all_candidates : List Candidate)
    (p : Prioritizer Project Metadata) (cs : List Candidate) (s : State)
    → Conserves p.definition at cs s
        (run_priorities schemas context at stage facts all_candidates p cs s)
unfolding run_priorities
run_priorities-Conserves schemas context at stage facts ac p [] s =
    nothing-Conserves p.definition at s
run_priorities-Conserves schemas context at stage facts ac p (c ∷ cs) s =
    settle-Conserves schemas context at stage facts ac p c cs s _
      (try_priority schemas context at stage facts ac p c s) refl
      (run_priorities-Conserves schemas context at stage facts ac p cs _)
