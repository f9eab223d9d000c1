-- ===== src/Core/Operation/Examples.antt =====
-- The identities of operation.rs at concrete intents, with a digest that keeps 32 bytes.
use mathlib.Core.List.{Permᴰ}
use ukiel.Base.{ℕ, ◌≡◌, arith, refl, List, [], ◌∷◌, take, some, true}
use ukiel.Base.Int.{pos}
use ukiel.Base.Sort.{sort}
use ukiel.Base.Result.{ok, err}
use ukiel.Core.Commit.{OperationIdentity}
use ukiel.Core.Table.{packed}
use ukiel.Core.Canonical.{null, bool, number, object, field, no_field}
use ukiel.Core.Intent.{
  IngestRange, CompactionIntent, duplicate_input_part, overlapping_offset_ranges, canonical_parts,
  canonical_ranges, range_order,
}
use ukiel.Core.Operation.{
  canonical_bytes, compaction_body, finish, compaction, domain, from_stored, operation_key,
}
use ukiel.Core.Operation.Identify.{of_compaction, identify, normal, intent_bytes, identify-normal}
use ukiel.Core.Operation.Reorder.{normal-identify, compaction-Permᴰ}
use ukiel.Core.Operation.Ranges.{Disjoint, canonical_ranges-Disjoint}
use ukiel.Core.Operation.Outcome.{identify-stored}

abbrev digest : List ℕ → List ℕ
digest bytes = take 32 bytes

abbrev merge : List ℕ → CompactionIntent
merge parts = record {
  output_level = 1;
  input_parts = parts;
  partition_values = object (field "day" (number "3") (field "app" null no_field));
  table_schema = bool true;
  sort_key = "ts" ∷ [];
  placement = packed;
  transformation_version = 2;
}

-- The same merge, with the other order of the keys.
abbrev merge_again : CompactionIntent
merge_again = record (merge (5 ∷ 9 ∷ [])) {
  partition_values = object (field "app" null (field "day" (number "3") no_field));
}

abbrev table : ℕ
table = 7

abbrev print : List ℕ
print = digest (intent_bytes 7 (of_compaction (merge (9 ∷ 5 ∷ []))))

abbrev merged : OperationIdentity
merged = record { hypertable_id = 7; key = operation_key "compaction" 1 print; fingerprint = print }

abbrev range_of : ℕ → ℕ → IngestRange
range_of first last = record {
  topic = "hits";
  partition = pos 0;
  first = pos first;
  last = pos last;
}

duplicate_refused : canonical_parts (4 ∷ 2 ∷ 4 ∷ []) ≡ err (duplicate_input_part 4)
duplicate_refused = refl

gap_kept :
    canonical_ranges (range_of 8 9 ∷ range_of 0 3 ∷ []) ≡ ok (range_of 0 3 ∷ range_of 8 9 ∷ [])
gap_kept = refl

overlap_refused :
    canonical_ranges (range_of 3 9 ∷ range_of 0 3 ∷ [])
    ≡ err (overlapping_offset_ranges "hits" (pos 0) (pos 3) (pos 9))
overlap_refused = refl

merged_again : identify digest 7 (of_compaction merge_again) ≡ ok merged
unfolding compaction finish compaction_body canonical_bytes
merged_again = refl

merged_once : identify digest 7 (of_compaction (merge (9 ∷ 5 ∷ []))) ≡ ok merged
unfolding compaction finish compaction_body canonical_bytes
merged_once = refl

identify-normal_example :
    (table ≡ table)
    × (normal (of_compaction merge_again) ≡ normal (of_compaction (merge (9 ∷ 5 ∷ []))))
unfolding compaction_body canonical_bytes
identify-normal_example =
    identify-normal digest 7 7 (of_compaction merge_again) (of_compaction (merge (9 ∷ 5 ∷ [])))
      merged merged (λ h. refl) (omega arith, ground arith) (omega arith, ground arith) merged_again
      merged_once refl

normal-identify_example :
    identify digest 7 (of_compaction merge_again)
    ≡ identify digest 7 (of_compaction (merge (9 ∷ 5 ∷ [])))
normal-identify_example =
    normal-identify digest 7 (of_compaction merge_again) (of_compaction (merge (9 ∷ 5 ∷ []))) refl

workers_agree : compaction digest 7 (merge (9 ∷ 5 ∷ [])) ≡ compaction digest 7 (merge (5 ∷ 9 ∷ []))
workers_agree = compaction-Permᴰ digest 7 (merge (9 ∷ 5 ∷ [])) (5 ∷ 9 ∷ []) (Permᴰ.swap refl refl)

canonical_ranges-Disjoint_example :
    (sort (range_of 8 9 ∷ range_of 0 3 ∷ []) ≡ range_of 0 3 ∷ range_of 8 9 ∷ [])
    × Disjoint (range_of 0 3 ∷ range_of 8 9 ∷ [])
canonical_ranges-Disjoint_example =
    canonical_ranges-Disjoint (range_of 8 9 ∷ range_of 0 3 ∷ []) (range_of 0 3 ∷ range_of 8 9 ∷ [])
      gap_kept

identify-stored_example :
    (domain merged ≡ some "compaction") × (from_stored 7 merged.key print ≡ ok merged)
identify-stored_example = identify-stored digest 7 (of_compaction merge_again) merged merged_again
