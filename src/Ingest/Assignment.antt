-- ===== src/Ingest/Assignment.antt =====
-- crates/ukiel-ingest/src/assignment.rs: the partitions that a worker consumes, and from where. The
-- stored offsets are a list of pairs. Starts of one partition are one and the same, so that their
-- order by partition is their order.
use ukiel.Base.{◌≡◌, List, map, select, find, elem, Bool, true, none, some, ◌==◌}
use ukiel.Base.Int.{ℤ, pos, int_eq}
use ukiel.Base.Sort.{Order, sort, ℤ_order, pair_order, order_of}

pub data Ownership : Type 0 where
  all : Ownership
  subset : List ℤ → Ownership

unfoldable pub owns : Ownership → ℤ → Bool
owns all partition = true
owns (subset set) partition = elem partition set

pub record PartitionStart : Type 0 where
  pub partition : ℤ
  pub offset : ℤ

abbrev pub start_key : PartitionStart → ℤ × ℤ
start_key s = (s.partition, s.offset)

pub start_key-apart : (r q : PartitionStart) → start_key r ≡ start_key q → r ≡ q
start_key-apart r q h = λ i. record { partition = (h i).0; offset = (h i).1 }

instance abbrev pub start_order : Order PartitionStart
start_order = order_of start_key start_key-apart

abbrev pub stored_at : ℤ → List (ℤ × ℤ) → ℤ
stored_at partition stored = elim (find (λ s. s.0 == partition) stored) [
  | none ↦ pos 0
  | some s ↦ s.1
]

unfoldable pub desired_assignment : List ℤ → Ownership → List (ℤ × ℤ) → List PartitionStart
unfolding owns
desired_assignment existing ownership stored = sort (
    map (λ p. record { partition = p; offset = stored_at p stored })
      (select (owns ownership) existing))
