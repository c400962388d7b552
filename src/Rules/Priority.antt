-- ===== src/Rules/Priority.antt =====
-- The priority of a finding (packages/rules-javascript/src/priority-policy.ts).
pub mod Caps
use stack_lens.Base.Tests.{ℕ, Bool, true, false, Option, List, [], ◌∷◌, ◌++◌, leb, if◌then◌else◌}
use stack_lens.Base.Text.{Text, text, ◌===◌}
use stack_lens.Base.Table.{Table, lookup}
use stack_lens.Contracts.{ScoreCategory, RuleReference}

pub data PriorityLevel : Type 0 where
  critical high medium low : PriorityLevel

pub data ConfidenceLevel : Type 0 where
  high medium low : ConfidenceLevel

pub data Severity : Type 0 where
  none low medium high critical unknown : Severity

-- The classification, with the confidence of a heuristic.
pub data Standing : Type 0 where
  fact : Standing
  heuristic : ConfidenceLevel → Standing

-- What of a finding the policy reads; the details are the severity of an advisory.
pub record Candidate : Type 0 where
  pub rule : RuleReference
  pub category : ScoreCategory
  pub standing : Standing
  pub severity : Option Severity
  pub evidence_ids : List Text

pub record Descriptor : Type 0 where
  pub level : PriorityLevel
  pub key : Text
  pub rationale : Text

pub record Factor : Type 0 where
  pub key : Text
  pub rationale : Text
  pub evidence_ids : List Text

pub record FindingPriority : Type 0 where
  pub level : PriorityLevel
  pub rule : RuleReference
  pub rationale : Text
  pub factors : List Factor

abbrev pub policy_rule : RuleReference
policy_rule = record { id = text "JS-PRIORITY-016"; version = text "2" }

-- `PRIORITY_BY_RULE`, by its own properties
abbrev pub priority_by_rule : Table Descriptor
priority_by_rule =
    (
      text "JS-VULN-011",
      record {
        level = PriorityLevel.high;
        key = text "known-vulnerability";
        rationale =
            text
              "An exact dependency version is matched to a known vulnerability, so this deserves prompt attention before lower-risk maintenance findings.";
      },
    )
    ∷ (
      text "JS-NPM-007",
      record {
        level = PriorityLevel.medium;
        key = text "explicit-deprecation";
        rationale =
            text
              "The package registry explicitly marks the exact dependency version deprecated, increasing maintenance and future-compatibility risk.";
      },
    )
    ∷ (
      text "JS-MIGRATION-014",
      record {
        level = PriorityLevel.low;
        key = text "major-version-migration";
        rationale =
            text
              "A deterministic major-version target exists, but migration work requires compatibility review and planned testing.";
      },
    )
    ∷ (
      text "JS-NPM-006",
      record {
        level = PriorityLevel.low;
        key = text "outdated-version";
        rationale =
            text
              "A newer exact npm latest version exists; update work is important but does not by itself establish an urgent failure or vulnerability.";
      },
    )
    ∷ (
      text "JS-OVERLAP-008",
      record {
        level = PriorityLevel.low;
        key = text "overlapping-responsibility";
        rationale =
            text
              "Supported package overlap can increase configuration and maintenance surface, but actual consolidation depends on project usage.";
      },
    )
    ∷ (
      text "JS-UNNECESSARY-009",
      record {
        level = PriorityLevel.low;
        key = text "potential-non-use";
        rationale =
            text
              "Supported static analysis found no usage signal, but the finding is intentionally conservative and requires verification before action.";
      },
    )
    ∷ []

-- `LEVEL_ORDER`
abbrev pub level_order : PriorityLevel → ℕ
level_order PriorityLevel.low = 0
level_order PriorityLevel.medium = 1
level_order PriorityLevel.high = 2
level_order PriorityLevel.critical = 3

abbrev pub lower_priority : PriorityLevel → PriorityLevel → PriorityLevel
lower_priority l r = if leb (level_order l) (level_order r) then l else r

abbrev pub severity_name : Severity → Text
severity_name Severity.none = text "none"
severity_name Severity.low = text "low"
severity_name Severity.medium = text "medium"
severity_name Severity.high = text "high"
severity_name Severity.critical = text "critical"
severity_name Severity.unknown = text "unknown"

abbrev pub level_of : Severity → PriorityLevel
level_of Severity.none = PriorityLevel.low
level_of Severity.low = PriorityLevel.low
level_of Severity.medium = PriorityLevel.medium
level_of Severity.high = PriorityLevel.high
level_of Severity.critical = PriorityLevel.critical
level_of Severity.unknown = PriorityLevel.low

abbrev pub is_unrated : Severity → Bool
is_unrated Severity.unknown = true
is_unrated _ = false

abbrev pub advisory_descriptor : Severity → Descriptor
advisory_descriptor s = record {
  level = level_of s;
  key = if is_unrated s then text "advisory-severity-unknown" else text "advisory-cvss-severity";
  rationale =
      if is_unrated s
      then text
          "CVSS severity is unknown. This review notice receives no inferred severity and cannot establish a security score."
      else text "Supported CVSS base severity is "
        ++ severity_name s
        ++ text "; this is advisory severity, not demonstrated application exploitability.";
}

abbrev pub is_security : ScoreCategory → Bool
is_security ScoreCategory.security = true
is_security _ = false

abbrev pub fallback : ScoreCategory → Descriptor
fallback c =
    if is_security c
    then record {
      level = PriorityLevel.high;
      key = text "security-finding";
      rationale =
          text
            "The finding belongs to the security category, so the fallback deterministic policy places it ahead of routine maintenance findings.";
    }
    else record {
      level = PriorityLevel.low;
      key = text "supported-finding";
      rationale =
          text
            "The finding has no more specific production priority mapping, so the deterministic fallback keeps it visible without overstating urgency.";
    }

unfoldable pub descriptor_for : Candidate → Descriptor
unfolding lookup ◌===◌
descriptor_for f = elim f.severity [
  | Option.some s ↦ advisory_descriptor s
  | Option.none ↦ elim (lookup f.rule.id priority_by_rule) [
    | Option.some d ↦ d
    | Option.none ↦ fallback f.category
  ]
]

-- The level that the confidence of a heuristic allows, given the descriptor's.
abbrev pub cap : ConfidenceLevel → PriorityLevel → PriorityLevel
cap ConfidenceLevel.low d = PriorityLevel.low
cap ConfidenceLevel.medium d = PriorityLevel.medium
cap ConfidenceLevel.high d = d

abbrev pub final_level : Standing → PriorityLevel → PriorityLevel
final_level fact d = d
final_level (heuristic c) d = lower_priority d (cap c d)

abbrev confidence_name : ConfidenceLevel → Text
confidence_name ConfidenceLevel.low = text "low"
confidence_name ConfidenceLevel.medium = text "medium"
confidence_name ConfidenceLevel.high = text "high"

abbrev level_name : PriorityLevel → Text
level_name PriorityLevel.low = text "low"
level_name PriorityLevel.medium = text "medium"
level_name PriorityLevel.high = text "high"
level_name PriorityLevel.critical = text "critical"

abbrev pub strength_factor : Standing → List Text → List Factor
strength_factor fact evidence = []
strength_factor (heuristic c) evidence =
    record {
      key = text "evidence-strength";
      rationale =
          text "The finding is heuristic with "
          ++ confidence_name c
          ++ text
              " confidence; priority is capped so evidence uncertainty cannot increase urgency.";
      evidence_ids = evidence;
    }
    ∷ []

unfoldable pub prioritize : Candidate → FindingPriority
unfolding descriptor_for
prioritize f =
    let d = descriptor_for f in
    let level = final_level f.standing d.level in
    record {
      level = level;
      rule = policy_rule;
      rationale =
          d.rationale
          ++ text " Final priority is "
          ++ level_name level
          ++ text " under the deterministic StackLens JavaScript policy.";
      factors =
          record { key = d.key; rationale = d.rationale; evidence_ids = f.evidence_ids }
          ∷ strength_factor f.standing f.evidence_ids;
    }
