-- ===== src/Rules/Examples.antt =====
-- The theorems about versions at concrete ones.
use stack_lens.Base.Tests.{◌≡◌, ◌↔◌, refl, none, some, [], ◌∷◌}
use stack_lens.Base.Text.{text}
use stack_lens.Base.Orders.{less, same, opposite}
use stack_lens.Contracts.{ScoreCategory}
use stack_lens.Rules.Priority.{
  PriorityLevel, ConfidenceLevel, Severity, Candidate, fact, heuristic, prioritize,
}
use stack_lens.Rules.Priority.Caps.{IsCapped, prioritize-IsCapped, prioritize_critical}
use stack_lens.Rules.Semver.{
  Version, Difference, number, word, parse_exact_semantic_version, compare_semantic_versions,
  newer_version_difference,
}
use stack_lens.Rules.Semver.Precedence.{
  HasSamePrecedence, IsNewerBy, compare_semantic_versions_lem, compare_semantic_versions_trans,
  newer_version_difference_lem,
}
use stack_lens.Rules.Semver.Parsing.{IsReadFrom, parse-IsReadFrom}

abbrev alpha : Version
alpha = record {
  raw = text "1.2.10-alpha.7+b-1";
  major = 1;
  minor = 2;
  patch = 10;
  prerelease = word (text "alpha") ∷ number 7 ∷ [];
}

abbrev stable : Version
stable = record { raw = text "1.2.10"; major = 1; minor = 2; patch = 10; prerelease = [] }

abbrev next_major : Version
next_major = record { raw = text "2.0.0"; major = 2; minor = 0; patch = 0; prerelease = [] }

reads : parse_exact_semantic_version (text "1.2.10-alpha.7+b-1") ≡ some alpha
unfolding parse_exact_semantic_version
reads = refl

refuses_zero : parse_exact_semantic_version (text "1.02.3") ≡ none
unfolding parse_exact_semantic_version
refuses_zero = refl

refuses_point : parse_exact_semantic_version (text "1.2.3-a..b") ≡ none
unfolding parse_exact_semantic_version
refuses_point = refl

refuses_zero_identifier : parse_exact_semantic_version (text "1.2.3-01") ≡ none
unfolding parse_exact_semantic_version
refuses_zero_identifier = refl

alpha_before_stable : compare_semantic_versions alpha stable ≡ less
unfolding compare_semantic_versions
alpha_before_stable = refl

stable_is_newer : newer_version_difference alpha stable ≡ some Difference.prerelease
unfolding newer_version_difference
stable_is_newer = refl

parse-IsReadFrom_example : IsReadFrom (text "1.2.10-alpha.7+b-1") alpha
parse-IsReadFrom_example = parse-IsReadFrom (text "1.2.10-alpha.7+b-1") alpha reads

compare_semantic_versions_lem_example :
    ((compare_semantic_versions alpha stable ≡ same) ↔ HasSamePrecedence alpha stable)
    × (compare_semantic_versions stable alpha ≡ opposite (compare_semantic_versions alpha stable))
compare_semantic_versions_lem_example = compare_semantic_versions_lem alpha stable

stable_before_next : compare_semantic_versions stable next_major ≡ less
unfolding compare_semantic_versions
stable_before_next = refl

compare_semantic_versions_trans_example : compare_semantic_versions alpha next_major ≡ less
compare_semantic_versions_trans_example =
    compare_semantic_versions_trans alpha stable next_major alpha_before_stable stable_before_next

newer_version_difference_lem_example :
    (newer_version_difference alpha stable ≡ some Difference.prerelease)
    ↔ IsNewerBy Difference.prerelease alpha stable
newer_version_difference_lem_example =
    newer_version_difference_lem Difference.prerelease alpha stable

abbrev vulnerable : Candidate
vulnerable = record {
  rule = record { id = text "JS-VULN-011"; version = text "2" };
  category = ScoreCategory.security;
  standing = heuristic ConfidenceLevel.medium;
  severity = some Severity.critical;
  evidence_ids = text "e1" ∷ [];
}

capped_at_medium : (prioritize vulnerable).level ≡ PriorityLevel.medium
unfolding prioritize
capped_at_medium = refl

prioritize-IsCapped_example : IsCapped vulnerable
prioritize-IsCapped_example = prioritize-IsCapped vulnerable

abbrev confirmed : Candidate
confirmed = record vulnerable { standing = fact }

confirmed_is_critical : (prioritize confirmed).level ≡ PriorityLevel.critical
unfolding prioritize
confirmed_is_critical = refl

prioritize_critical_example : confirmed.severity ≡ some Severity.critical
prioritize_critical_example = prioritize_critical confirmed confirmed_is_critical
