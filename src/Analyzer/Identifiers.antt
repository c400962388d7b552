-- ===== src/Analyzer/Identifiers.antt =====
-- Fresh identifiers (packages/analyzer-core/src/pipeline.ts, `allocateIdentifier`).
pub mod Fresh
use stack_lens.Base.Tests.{ℕ, zero, suc, ◌-◌, List, [], ◌∷◌, ◌++◌, if◌then◌else◌}
use stack_lens.Base.Lists.{length, take}
use stack_lens.Base.Text.{Text}
use stack_lens.Base.Table.{mem}
use stack_lens.Base.Decimal.{decimal}

abbrev pub max_length : ℕ
max_length = 200

-- `#` and the counter
abbrev pub suffix : ℕ → Text
suffix counter = 35 ∷ decimal counter

abbrev pub candidate_at : Text → ℕ → Text
candidate_at preferred counter =
    take (max_length - length (suffix counter)) preferred ++ suffix counter

-- The loop from a counter on. A list of used identifiers that is as long as the fuel cannot have
-- every candidate, so the last one is returned untested.
unfoldable pub next_identifier : ℕ → Text → List Text → ℕ → Text
unfolding decimal
next_identifier zero preferred used counter = candidate_at preferred counter
next_identifier (suc fuel) preferred used counter =
    let later = next_identifier fuel preferred used (suc counter) in
    if mem (candidate_at preferred counter) used then later else candidate_at preferred counter

unfoldable pub allocate_identifier : Text → List Text → Text
unfolding next_identifier
allocate_identifier preferred used =
    let initial = take max_length preferred in
    if mem initial used then next_identifier (length used) preferred used 2 else initial
