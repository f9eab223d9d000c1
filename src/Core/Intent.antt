-- ===== src/Core/Intent.antt =====
-- crates/ukiel-core/src/operation.rs: the intents of a mutation, and the canonical order of their
-- parts and offset ranges. An id is a natural number.
use ukiel.Base.{
  ◌≡◌, ap, ℕ, String, List, [], ◌∷◌, ◌&&◌, Option, none, some, ◌==◌, nat_eq, string_eq,
  if◌then◌else◌,
}
use ukiel.Base.Int.{int_eq, ℤ, leℤ}
use ukiel.Base.Sort.{order_of, Order, sort, nat_order, ℤ_order, list_order, pair_order}
use ukiel.Base.Result.{Result, ok, err, ◌>>=◌}
use ukiel.Core.Table.{Placement}
use ukiel.Core.Canonical.Prefix.{utf8-injective}
use ukiel.Core.Canonical.{utf8, Value}

pub record IngestRange : Type 0 where
  pub topic : String
  pub partition : ℤ
  pub first : ℤ
  pub last : ℤ

pub record MvIntent : Type 0 where
  pub pipeline_id : ℕ
  pub source_hypertable_id : ℕ
  pub source_commit_id : ℕ
  pub transformation_version : ℕ

pub record CompactionIntent : Type 0 where
  pub output_level : ℕ
  pub input_parts : List ℕ
  pub partition_values : Value
  pub table_schema : Value
  pub sort_key : List String
  pub placement : Placement
  pub transformation_version : ℕ

pub record DeleteKeyIntent : Type 0 where
  pub packing_key : ℤ
  pub input_parts : List ℕ
  pub table_schema : Value
  pub sort_key : List String
  pub placement : Placement
  pub transformation_version : ℕ

pub data OperationError : Type 0 where
  invalid_id : String → ℕ → OperationError
  mv_self_loop : OperationError
  no_input_parts : OperationError
  duplicate_input_part : ℕ → OperationError
  no_offset_ranges : OperationError
  empty_topic : OperationError
  inverted_offset_range : String → ℤ → ℤ → ℤ → OperationError
  overlapping_offset_ranges : String → ℤ → ℤ → ℤ → OperationError
  empty_sort_key : OperationError
  key_too_long : ℕ → OperationError

-- `windows(2)`: the first id that is followed by itself.
abbrev pub twice : List ℕ → Option ℕ
twice [] = none
twice (x ∷ []) = none
twice (x ∷ y ∷ ids) = let rest = twice (y ∷ ids) in if x == y then some x else rest

abbrev pub checked_parts : List ℕ → Result (List ℕ) OperationError
checked_parts ids = elim (twice ids) [ none ↦ ok ids | some dup ↦ err (duplicate_input_part dup) ]

abbrev pub canonical_parts : List ℕ → Result (List ℕ) OperationError
canonical_parts [] = err no_input_parts
canonical_parts (p ∷ parts) = checked_parts (sort (p ∷ parts))

-- The derived order of ranges: by topic, partition, first and last.
abbrev pub range_key : IngestRange → List ℕ × (ℤ × (ℤ × ℤ))
range_key r = (utf8 r.topic, (r.partition, (r.first, r.last)))

pub range_key-apart : (r q : IngestRange) → range_key r ≡ range_key q → r ≡ q
range_key-apart r q h = λ i. record {
  topic = utf8-injective r.topic q.topic (ap (λ k. k.0) h) i;
  partition = (h i).1.0;
  first = (h i).1.1.0;
  last = (h i).1.1.1;
}

instance abbrev pub range_order : Order IngestRange
range_order = order_of range_key range_key-apart

abbrev pub check_ranges : List IngestRange → Result (Unit {0}) OperationError
check_ranges [] = ok tt
check_ranges (r ∷ rs) =
    let rest = check_ranges rs in
    if r.topic == ""
    then err empty_topic
    else if leℤ r.first r.last
    then rest
    else err (inverted_offset_range r.topic r.partition r.first r.last)

-- `windows(2)`: the first range that starts no later than the one before it ends.
abbrev pub overlapped : List IngestRange → Option IngestRange
overlapped [] = none
overlapped (p ∷ []) = none
overlapped (p ∷ n ∷ rs) =
    let rest = overlapped (n ∷ rs) in
    if p.topic == n.topic && (p.partition == n.partition && leℤ n.first p.last)
    then some n
    else rest

abbrev pub checked_ranges : List IngestRange → Result (List IngestRange) OperationError
checked_ranges ordered = check_ranges ordered >>= λ _. elim (overlapped ordered) [
  | none ↦ ok ordered
  | some n ↦ err (overlapping_offset_ranges n.topic n.partition n.first n.last)
]

abbrev pub canonical_ranges : List IngestRange → Result (List IngestRange) OperationError
canonical_ranges [] = err no_offset_ranges
canonical_ranges (r ∷ ranges) = checked_ranges (sort (r ∷ ranges))
