-- ===== src/Core/Operation/Outcome.antt =====
-- How the factories of operation.rs end, and what the identity that they build tells and keeps.
use mathlib.Core.Option
use Prim.Native.String.{◌∷◌ as char_then}
use ukiel.Base.{
  ℕ, ◌≤◌, ◌≡◌, ◌≢◌, ◌⊎◌, refl, sym, ap, ◌∙◌, String, List, [], ◌∷◌, length, some, Bool, true, false,
  arith, ltb, Bool-cases, inl, inr, ◌==◌, nat_eq, Option-cases,
}
use ukiel.Base.Sort.{sort, nat_order}
use ukiel.Base.Result.{Result, ok, err, Result-cases}
use ukiel.Core.Commit.{OperationIdentity}
use ukiel.Core.Intent.{
  IngestRange, MvIntent, CompactionIntent, DeleteKeyIntent, OperationError, mv_self_loop,
  empty_sort_key, key_too_long, canonical_parts, canonical_ranges, check_ranges, range_order,
}
use ukiel.Core.Operation.{
  finish, mv, ingest, compaction, delete_key, with_sort_key, domain, from_stored, until_slash,
  after_slash, operation_key, decimal, hex, not_positive, mv_ids, canonical_bytes,
}
use ukiel.Core.Operation.Identify.{
  Intent, of_mv, of_ingest, of_compaction, of_delete_key, identify, name, body, intent_bytes,
  canonical_parts-ok, canonical_ranges-ok,
}
use ukiel.Core.Operation.Key.{
  size, key_size, size-name, until_slash-join, name-Unslashed, finish-key,
}

-- The one error that is about the key, and not about the intent.
abbrev too_long : OperationError → Bool
too_long (key_too_long n) = true
too_long e = false

Refused : Result OperationIdentity OperationError → Type 0
Refused r = (e : OperationError) × (r ≡ err e) × (too_long e ≡ false)

canonical_parts-err :
    (ps : List ℕ) (e : OperationError) → canonical_parts ps ≡ err e → too_long e ≡ false
canonical_parts-err [] e h = ground arith
canonical_parts-err (p ∷ ps) e h = ground arith

check_ranges-err :
    (rs : List IngestRange) (e : OperationError) → check_ranges rs ≡ err e → too_long e ≡ false
check_ranges-err [] e h = ground arith
check_ranges-err (r ∷ rs) e h = ground (arith, check_ranges-err rs e)

canonical_ranges-err :
    (rs : List IngestRange) (e : OperationError) → canonical_ranges rs ≡ err e → too_long e ≡ false
canonical_ranges-err [] e h = ground arith
canonical_ranges-err (r ∷ rs) e h = ground (arith, check_ranges-err (sort (r ∷ rs)) e)

not_positive-err :
    (fields : List (String × ℕ)) (e : OperationError)
    → not_positive fields ≡ some e
    → too_long e ≡ false
not_positive-err [] e h = ground arith
not_positive-err ((field, value) ∷ fields) e h = ground (arith, not_positive-err fields e)

module _ (hash : List ℕ → List ℕ) (ht : ℕ) where
  Ending : Intent → Type 0
  unfolding Refused
  Ending i =
      (identify hash ht i ≡ finish hash ht (name i) 1 (body i)) ⊎ Refused (identify hash ht i)

  mv-ending : (i : MvIntent) → Ending (of_mv i)
  unfolding Ending mv Refused
  mv-ending i = elim (Option-cases (not_positive (mv_ids ht i))) [
    | inl e ↦ elim (Bool-cases (ht == i.source_hypertable_id)) [
      | inl f ↦ rw (e, f) (inr (mv_self_loop, refl, refl))
      | inr f ↦ rw (e, f) (inl refl)
    ]
    | inr (x, e) ↦ rw e (inr (x, refl, not_positive-err (mv_ids ht i) x e))
  ]

  ingest-ending : (rs : List IngestRange) (v : ℕ) → Ending (of_ingest rs v)
  unfolding Ending ingest Refused
  ingest-ending rs v = elim (Result-cases (canonical_ranges rs)) [
    | inl (qs, e) ↦ rw (e, canonical_ranges-ok rs qs e) (inl refl)
    | inr (x, e) ↦ rw e (inr (x, refl, canonical_ranges-err rs x e))
  ]

  with_sort_key-ending :
      (keys : List String) (r : Result OperationIdentity OperationError)
      → (with_sort_key keys r ≡ r) ⊎ Refused (with_sort_key keys r)
  unfolding Refused
  with_sort_key-ending [] r = inr (empty_sort_key, refl, refl)
  with_sort_key-ending (k ∷ keys) r = inl refl

  compaction-ending : (i : CompactionIntent) → Ending (of_compaction i)
  unfolding Ending compaction Refused
  compaction-ending i = elim (Result-cases (canonical_parts i.input_parts)) [
    | inl (qs, e) ↦
        rw (e, canonical_parts-ok i.input_parts qs e) (with_sort_key-ending i.sort_key _)
    | inr (x, e) ↦ rw e (inr (x, refl, canonical_parts-err i.input_parts x e))
  ]

  delete_key-ending : (i : DeleteKeyIntent) → Ending (of_delete_key i)
  unfolding Ending delete_key Refused
  delete_key-ending i = elim (Result-cases (canonical_parts i.input_parts)) [
    | inl (qs, e) ↦
        rw (e, canonical_parts-ok i.input_parts qs e) (with_sort_key-ending i.sort_key _)
    | inr (x, e) ↦ rw e (inr (x, refl, canonical_parts-err i.input_parts x e))
  ]

  ending : (i : Intent) → Ending i
  ending (of_mv i) = mv-ending i
  ending (of_ingest ranges version) = ingest-ending ranges version
  ending (of_compaction i) = compaction-ending i
  ending (of_delete_key i) = delete_key-ending i

  finish-short :
      (d : String) (b : List ℕ → List ℕ)
      → size d ≤ 10
      → length (hash (canonical_bytes ht d 1 b)) ≡ 32
      → ltb 128 (size (operation_key d 1 (hash (canonical_bytes ht d 1 b)))) ≡ false
  finish-short d b short digest =
      ground (arith, key_size d 1 (hash (canonical_bytes ht d 1 b)), short, digest)

  -- A digest of 32 bytes makes an identity.
  pub finish-made :
      (d : String) (b : List ℕ → List ℕ)
      → size d ≤ 10
      → length (hash (canonical_bytes ht d 1 b)) ≡ 32
      → (a : OperationIdentity) × (finish hash ht d 1 b ≡ ok a)
  unfolding finish
  finish-made d b short digest =
      let fingerprint = hash (canonical_bytes ht d 1 b) in
      let made : OperationIdentity = record {
        hypertable_id = ht;
        key = operation_key d 1 fingerprint;
        fingerprint = fingerprint;
      } in
      (made, rw (finish-short d b short digest) refl)

  finish-stored :
      (d : String) (b : List ℕ → List ℕ) (a : OperationIdentity)
      → finish hash ht d 1 b ≡ ok a
      → from_stored a.hypertable_id a.key a.fingerprint ≡ ok a
  unfolding finish from_stored
  finish-stored d b a h = ground arith

  -- The key of a digest of 32 bytes is never too long.
  pub identify-short :
      (i : Intent) (n : ℕ)
      → length (hash (intent_bytes ht i)) ≡ 32
      → identify hash ht i ≢ err (key_too_long n)
  unfolding Ending finish Refused
  identify-short i n digest h = elim (ending i) [
    | inl e ↦ ground (arith, finish-short (name i) (body i) (size-name i) digest, sym e ∙ h)
    | inr (x, e, short) ↦ ground (arith, sym e ∙ h)
  ]

  -- An identity that was built names the domain of its intent, and `from_stored` takes its key and
  -- its digest back as the same identity.
  pub identify-stored :
      (i : Intent) (a : OperationIdentity)
      → identify hash ht i ≡ ok a
      → (domain a ≡ some (name i)) × (from_stored a.hypertable_id a.key a.fingerprint ≡ ok a)
  unfolding Ending Refused domain
  identify-stored i a h = elim (ending i) [
    | inr (x, e, short) ↦ absurd (ground (arith, sym e ∙ h))
    | inl e ↦
        let built = sym e ∙ h in
        (
          ap (λ k. Option.map until_slash (after_slash k))
                (finish-key hash ht (name i) (body i) a built)
              ∙ ap some (
                  until_slash-join (name i)
                    (char_then "v" (decimal 10 1 (char_then "/" (hex a.fingerprint))))
                    (name-Unslashed i)),
          finish-stored (name i) (body i) a built,
        )
  ]
