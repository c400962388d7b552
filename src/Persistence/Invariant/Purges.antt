-- ===== src/Persistence/Invariant/Purges.antt =====
-- The retention sweep keeps the invariant.
use stack_lens.Base.Tests.{List, arith}
use stack_lens.Base.Text.{Text}
use stack_lens.Base.Table.{lookup-delete_keys, delete_keys-Holds, delete_keys-HasDistinctKeys}
use stack_lens.Persistence.Types.{Store}
use stack_lens.Persistence.Invariant.{IsValid, IsValidRow, IsValidDelivery}
use stack_lens.Persistence.Retention.{delete_analyses}

pub delete_analyses-IsValid :
    (gone : List Text) (s : Store) → IsValid s → IsValid (delete_analyses gone s)
delete_analyses-IsValid gone s v = record {
  keys_of_analyses = delete_keys-HasDistinctKeys gone s.analyses v.keys_of_analyses;
  keys_of_reports = delete_keys-HasDistinctKeys gone s.reports v.keys_of_reports;
  keys_of_deliveries = delete_keys-HasDistinctKeys gone s.deliveries v.keys_of_deliveries;
  rows = delete_keys-Holds IsValidRow gone s.analyses v.rows;
  deliveries = delete_keys-Holds IsValidDelivery gone s.deliveries v.deliveries;
  reported = λ i. ground (
    arith,
    v.reported i,
    lookup-delete_keys i gone s.analyses,
    lookup-delete_keys i gone s.reports,
  );
  owned = λ i h. ground (
    arith,
    v.owned i,
    lookup-delete_keys i gone s.analyses,
    lookup-delete_keys i gone s.deliveries,
  );
}
