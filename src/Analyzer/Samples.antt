-- ===== src/Analyzer/Samples.antt =====
-- A rule set whose second fact rule throws and whose prioritizer throws for one of two two_candidates.
use stack_lens.Base.Tests.{ℕ, true, Option, none, some, List, [], ◌∷◌, if◌then◌else◌}
use stack_lens.Base.Text.{Text, text, ◌===◌}
use stack_lens.Contracts.{AnalysisInput, ScoreCategory, RuleReference}
use stack_lens.Rules.Priority.{PriorityLevel, FindingPriority}
use stack_lens.Analyzer.Types.{
  RuleDefinition, Evidence, Fact, Basis, Candidate, Recommendation, done, crashed, Context,
  FactRule, FindingRule, Prioritizer, RecommendationRule, RuleSet, Schemas,
}
use stack_lens.Analyzer.Pipeline.{State, initial_state}
use stack_lens.Analyzer.RuleSet.{run_rule_pipeline}

abbrev pub schemas : Schemas
schemas = record {
  is_identifier = λ s. true;
  read_fact = λ f. some f;
  read_candidate = λ c. some c;
  read_recommendation = λ r. some r;
  read_limitation = λ l. some l;
  read_priority = λ p. some p;
}

abbrev pub requirement : List Text
requirement = text "FR-001" ∷ []

abbrev pub definition : Text → RuleDefinition
definition id = record { id = id; version = text "1"; requirement_ids = requirement }

abbrev pub reference : Text → RuleReference
reference id = record { id = id; version = text "1" }

abbrev pub evidence : List Evidence
evidence = record { id = text "e"; source_id = none } ∷ []

abbrev pub context : Context ℕ ℕ
context = record {
  input = AnalysisInput.manifest (text "f");
  project = 0;
  metadata = 0;
  sources = [];
  evidence = evidence;
  limitations = [];
  partial_failures = [];
}

abbrev pub a_fact : Fact
a_fact = record {
  id = text "fact";
  rule = reference (text "A");
  requirement_ids = requirement;
  evidence_ids = text "e" ∷ [];
  details = none;
}

abbrev pub rule_a : FactRule ℕ ℕ
rule_a = record {
  definition = definition (text "A");
  evaluate = λ stage. done (record { facts = some (a_fact ∷ []); limitations = none });
}

abbrev pub rule_b : FactRule ℕ ℕ
rule_b = record { definition = definition (text "B"); evaluate = λ stage. crashed }

abbrev pub candidate : Text → Basis → Candidate
candidate id basis = record {
  id = id;
  category = ScoreCategory.security;
  rule = reference (text "C");
  requirement_ids = requirement;
  evidence_ids = text "e" ∷ [];
  fact_ids = text "fact" ∷ [];
  limitation_ids = [];
  basis = basis;
}

abbrev pub two_candidates : List Candidate
two_candidates =
    candidate (text "c1") (Basis.heuristic (text "fact" ∷ []))
    ∷ candidate (text "c2") Basis.fact
    ∷ []

abbrev pub rule_c : FindingRule ℕ ℕ
rule_c = record {
  definition = definition (text "C");
  evaluate = λ stage facts. done (record { findings = some two_candidates; limitations = none });
}

abbrev pub low : FindingPriority
low = record {
  level = PriorityLevel.low;
  rule = reference (text "P");
  rationale = text "r";
  factors = record { key = text "k"; rationale = text "r"; evidence_ids = text "e" ∷ [] } ∷ [];
}

abbrev pub prioritizer : Prioritizer ℕ ℕ
prioritizer = record {
  definition = definition (text "P");
  is_priority = true;
  prioritize = λ stage facts cs c. if c.id === text "c1" then done low else crashed;
}

abbrev pub recommendation : Recommendation
recommendation = record {
  id = text "r1";
  rule = reference (text "R");
  requirement_ids = requirement;
  evidence_ids = text "e" ∷ [];
  finding_ids = text "c1" ∷ [];
  basis = Basis.heuristic (text "fact" ∷ []);
}

abbrev pub rule_r : RecommendationRule ℕ ℕ
rule_r = record {
  definition = definition (text "R");
  evaluate = λ stage facts findings.
      done (record { recommendations = some (recommendation ∷ []); limitations = none });
}

abbrev pub rules : RuleSet ℕ ℕ
rules = record {
  version = text "1";
  fact_rules = rule_a ∷ rule_b ∷ [];
  finding_rules = rule_c ∷ [];
  prioritizer = prioritizer;
  recommendation_rules = rule_r ∷ [];
}

abbrev pub state_or : State → Option State → State
state_or d none = d
state_or d (some s) = s

abbrev pub result : State
result = state_or (initial_state context) (run_rule_pipeline schemas context rules 5)
