-- ===== src/Persistence/Retention.antt =====
-- Deleting what has outlived its retention (packages/persistence/src/repository.ts,
-- `purgeExpiredTerminalAnalyses`); the reports and deliveries go with their analyses, by the
-- `ON DELETE CASCADE` of schema.ts.
use stack_lens.Base.Tests.{
  ℕ, ◌≡◌, Bool, true, not, ◌&&◌, ◌||◌, Option, none, some, List, ltb, ◌==◌, if◌then◌else◌, is_some,
  or_else,
}
use stack_lens.Base.Lists.{length, take, select, All-take, All-select}
use stack_lens.Base.Text.{Text}
use stack_lens.Base.Table.{
  delete_keys, mem, keys, lookup, lookup_self, test_of_key, HasDistinctKeys,
}
use stack_lens.Base.Sort.{sort, sort-All}
use stack_lens.Persistence.Types.{Analysis, Store, is_terminal_analysis_status}
use stack_lens.Persistence.Outbox.{is_expired}

abbrev pub is_purgeable : ℕ → Analysis → Bool
is_purgeable now a =
    is_expired a.retention_expires_at now
    && is_terminal_analysis_status a.status
    && not (is_some a.active_job_id)

-- `ORDER BY retention_expires_at, id`; the rows that are sorted have an expiry.
abbrev is_purged_before : (Text → Text → Bool) → Text × Analysis → Text × Analysis → Bool
is_purged_before collate (k, a) (j, b) =
    let x = or_else a.retention_expires_at 0 in
    let y = or_else b.retention_expires_at 0 in ltb x y || (x == y && collate k j)

-- The `WHERE` of the statement, on a row that no other transaction holds locked.
abbrev pub is_expired_row : ℕ → List Text → Text × Analysis → Bool
is_expired_row now locked (k, a) = not (mem k locked) && is_purgeable now a

-- `DELETE FROM analysis`, with the rows of the other tables that refer to those deleted.
abbrev pub delete_analyses : List Text → Store → Store
delete_analyses gone s = record {
  analyses = delete_keys gone s.analyses;
  reports = delete_keys gone s.reports;
  deliveries = delete_keys gone s.deliveries;
}

module _ (collate : Text → Text → Bool) (locked : List Text) where
  unfoldable pub expired_rows : ℕ → ℕ → Store → List (Text × Analysis)
  unfolding select sort
  expired_rows now limit s =
      take limit (sort (is_purged_before collate) (select (is_expired_row now locked) s.analyses))

  -- The number of rows deleted; `none` is the error that the guard throws.
  unfoldable pub purge_expired_terminal_analyses : ℕ → ℕ → Store → Option (ℕ × Store)
  unfolding expired_rows delete_keys
  purge_expired_terminal_analyses now limit s =
      if limit == 0 || ltb 1000 limit
      then none
      else let gone = keys (expired_rows now limit s) in some (length gone, delete_analyses gone s)

  -- Only a terminal analysis that no job holds and whose retention has passed is deleted.
  pub purgeable_of_key :
      (now limit : ℕ) (s : Store)
      → HasDistinctKeys s.analyses
      → (j : Text) (a : Analysis) → mem j (keys (expired_rows now limit s)) ≡ true
      → lookup j s.analyses ≡ some a
      → is_expired_row now locked (j, a) ≡ true
  unfolding expired_rows
  purgeable_of_key now limit s h j a m found =
      test_of_key (is_expired_row now locked) s.analyses _ j
        (All-take (λ e. (lookup e.0 s.analyses ≡ some e.1) × (is_expired_row now locked e ≡ true))
          limit _
          (sort-All (is_purged_before collate) _ _ (
            All-select (λ e. lookup e.0 s.analyses ≡ some e.1) (is_expired_row now locked)
              s.analyses (lookup_self s.analyses h))))
        m a found
