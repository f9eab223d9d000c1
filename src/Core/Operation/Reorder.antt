-- ===== src/Core/Operation/Reorder.antt =====
-- What the factories of operation.rs leave out of an identity: the order of parts, of ranges and of
-- the keys of JSON objects.
use mathlib.Core.List.{Permᴰ}
use ukiel.Base.{ℕ, ◌≡◌, refl, sym, ap, List, [], ◌∷◌, arith}
use mathlib.Core.Path.{ap₂}
use ukiel.Base.Int.{pos}
use ukiel.Base.Sort.{Order, sort, insert, nat_order, sort-Permᴰ}
use ukiel.Base.Result.{◌>>=◌}
use ukiel.Core.Canonical.{str, int, list, placement, push_value}
use ukiel.Core.Intent.{
  IngestRange, MvIntent, CompactionIntent, DeleteKeyIntent, canonical_parts, canonical_ranges,
  checked_parts, checked_ranges, range_order,
}
use ukiel.Core.Operation.{
  finish, mv, ingest, compaction, delete_key, compaction_body, delete_key_body, ingest_body,
  with_sort_key,
}
use ukiel.Core.Operation.Shape.{normal_compaction, normal_delete_key}
use ukiel.Core.Operation.Identify.{
  Intent, of_mv, of_ingest, of_compaction, of_delete_key, identify, normal,
}

insert-occupied {ℓ} : {A : Type ℓ} ⦃o : Order A⦄ (x : A) (xs : List A) → [] ≡ insert x xs → ⊥
insert-occupied ⦃o⦄ x [] h = ground arith
insert-occupied ⦃o⦄ x (y ∷ ys) h = ground arith

pub canonical_parts-order :
    (ps qs : List ℕ) → sort ps ≡ sort qs → canonical_parts ps ≡ canonical_parts qs
canonical_parts-order [] [] h = refl
canonical_parts-order [] (q ∷ qs) h = absurd (insert-occupied q (sort qs) h)
canonical_parts-order (p ∷ ps) [] h = absurd (insert-occupied p (sort ps) (sym h))
canonical_parts-order (p ∷ ps) (q ∷ qs) h = ap checked_parts h

pub canonical_ranges-order :
    (rs qs : List IngestRange) → sort rs ≡ sort qs → canonical_ranges rs ≡ canonical_ranges qs
canonical_ranges-order [] [] h = refl
canonical_ranges-order [] (q ∷ qs) h = absurd (insert-occupied q (sort qs) h)
canonical_ranges-order (p ∷ ps) [] h = absurd (insert-occupied p (sort ps) (sym h))
canonical_ranges-order (p ∷ ps) (q ∷ qs) h = ap checked_ranges h

-- What an intent holds, and something else where it is of another kind.
abbrev as_mv : MvIntent → Intent → MvIntent
as_mv other (of_mv i) = i
as_mv other i = other

abbrev as_ingest : Intent → List IngestRange × ℕ
as_ingest (of_ingest ranges version) = (ranges, version)
as_ingest i = ([], 0)

abbrev as_compaction : CompactionIntent → Intent → CompactionIntent
as_compaction other (of_compaction i) = i
as_compaction other i = other

abbrev as_delete_key : DeleteKeyIntent → Intent → DeleteKeyIntent
as_delete_key other (of_delete_key i) = i
as_delete_key other i = other

abbrev kind_number : Intent → ℕ
kind_number (of_mv i) = 0
kind_number (of_ingest ranges version) = 1
kind_number (of_compaction i) = 2
kind_number (of_delete_key i) = 3

-- The bodies of intents in normal form.
abbrev compaction_bytes : List ℕ → CompactionIntent → List ℕ → List ℕ
compaction_bytes parts i after = int (pos i.transformation_version) (
    int (pos i.output_level) (
      list (λ id. int (pos id)) parts
        (push_value i.partition_values
          (push_value i.table_schema (list str i.sort_key (placement i.placement after))))))

abbrev delete_key_bytes : List ℕ → DeleteKeyIntent → List ℕ → List ℕ
delete_key_bytes parts i after = int (pos i.transformation_version) (
    int i.packing_key (
      list (λ id. int (pos id)) parts
        (push_value i.table_schema (list str i.sort_key (placement i.placement after)))))

module _ (hash : List ℕ → List ℕ) (ht : ℕ) where
  mv-normal : (i j : MvIntent) → of_mv i ≡ of_mv j → mv hash ht i ≡ mv hash ht j
  mv-normal i j h = ap (λ k. mv hash ht (as_mv i k)) h

  ingest-normal :
      (rs qs : List IngestRange) (v w : ℕ)
      → of_ingest (sort rs) v ≡ of_ingest (sort qs) w
      → ingest hash ht rs v ≡ ingest hash ht qs w
  unfolding ingest
  ingest-normal rs qs v w h =
      ap₂ (λ c version. c >>= λ ranges. finish hash ht "ingest" 1 (ingest_body ranges version))
        (canonical_ranges-order rs qs (ap (λ k. (as_ingest k).0) h)) (ap (λ k. (as_ingest k).1) h)

  compaction-normal :
      (i j : CompactionIntent)
      → normal_compaction (sort i.input_parts) i ≡ normal_compaction (sort j.input_parts) j
      → compaction hash ht i ≡ compaction hash ht j
  unfolding compaction compaction_body
  compaction-normal i j h =
      ap₂
        (λ c (k : CompactionIntent). c >>= λ parts.
          with_sort_key k.sort_key (finish hash ht "compaction" 1 (compaction_bytes parts k)))
        (canonical_parts-order i.input_parts j.input_parts
          (ap (λ (k : CompactionIntent). k.input_parts) h))
        h

  delete_key-normal :
      (i j : DeleteKeyIntent)
      → normal_delete_key (sort i.input_parts) i ≡ normal_delete_key (sort j.input_parts) j
      → delete_key hash ht i ≡ delete_key hash ht j
  unfolding delete_key delete_key_body
  delete_key-normal i j h =
      ap₂
        (λ c (k : DeleteKeyIntent). c >>= λ parts.
          with_sort_key k.sort_key (finish hash ht "delete-key" 1 (delete_key_bytes parts k)))
        (canonical_parts-order i.input_parts j.input_parts
          (ap (λ (k : DeleteKeyIntent). k.input_parts) h))
        h

  -- Two intents that are one up to the order of their parts, their ranges and their objects' keys
  -- get one answer from the factories: one identity, or one error.
  pub normal-identify :
      (i j : Intent) → normal i ≡ normal j → identify hash ht i ≡ identify hash ht j
  normal-identify (of_mv i) (of_mv j) h = mv-normal i j h
  normal-identify (of_ingest rs v) (of_ingest qs w) h = ingest-normal rs qs v w h
  normal-identify (of_compaction i) (of_compaction j) h =
      compaction-normal i j (ap (as_compaction (normal_compaction (sort i.input_parts) i)) h)
  normal-identify (of_delete_key i) (of_delete_key j) h =
      delete_key-normal i j (ap (as_delete_key (normal_delete_key (sort i.input_parts) i)) h)
  normal-identify i j h = absurd (omega (arith, ap kind_number h))

-- Workers that list the same parts in different orders ask for the same merge.
pub compaction-Permᴰ :
    (hash : List ℕ → List ℕ) (ht : ℕ) (i : CompactionIntent) (parts : List ℕ)
    → Permᴰ i.input_parts parts
    → compaction hash ht i ≡ compaction hash ht (record i { input_parts = parts })
compaction-Permᴰ hash ht i parts p =
    compaction-normal hash ht i (record i { input_parts = parts })
      (ap (λ ids. normal_compaction ids i) (sort-Permᴰ p))
