-- ===== src/Core/Operation/Identify.antt =====
-- The four factories of operation.rs as one: what an identity says of the intent it was made of.
use Prim.Native.Char.{code}
use Prim.Native.String.{[] as empty, ◌∷◌ as char_then}
use ukiel.Base.{ℕ, ◌≡◌, sym, ap, ◌∙◌, String, List, [], ◌∷◌, string_eq, arith}
use ukiel.Base.Sort.{sort, nat_order}
use ukiel.Base.Result.{Result, ok, >>=-ok}
use ukiel.Core.Commit.{OperationIdentity}
use ukiel.Core.Canonical.Prefix.{FitsText}
use ukiel.Core.Intent.{
  IngestRange, MvIntent, CompactionIntent, DeleteKeyIntent, OperationError, canonical_parts,
  canonical_ranges, range_order,
}
use ukiel.Core.Operation.{
  canonical_bytes, mv_body, ingest_body, compaction_body, delete_key_body, finish, with_sort_key,
  mv, ingest, compaction, delete_key,
}
use ukiel.Core.Operation.Bytes.{
  FitsId, FitsMv, FitsIngest, canonical_bytes-prefix, mv_body-prefix, ingest_body-prefix,
}
use ukiel.Core.Operation.Shape.{
  FitsCompaction, FitsDeleteKey, normal_compaction, normal_delete_key, compaction_body-prefix,
  delete_key_body-prefix,
}

pub data Intent : Type 0 where
  of_mv : MvIntent → Intent
  of_ingest : List IngestRange → ℕ → Intent
  of_compaction : CompactionIntent → Intent
  of_delete_key : DeleteKeyIntent → Intent

abbrev pub identify : (List ℕ → List ℕ) → ℕ → Intent → Result OperationIdentity OperationError
identify hash ht (of_mv i) = mv hash ht i
identify hash ht (of_ingest ranges version) = ingest hash ht ranges version
identify hash ht (of_compaction i) = compaction hash ht i
identify hash ht (of_delete_key i) = delete_key hash ht i

-- The intent with what its order says nothing of in one order: its parts, its ranges, and the keys
-- of its objects.
abbrev pub normal : Intent → Intent
normal (of_mv i) = of_mv i
normal (of_ingest ranges version) = of_ingest (sort ranges) version
normal (of_compaction i) = of_compaction (normal_compaction (sort i.input_parts) i)
normal (of_delete_key i) = of_delete_key (normal_delete_key (sort i.input_parts) i)

abbrev pub name : Intent → String
name (of_mv i) = "mv"
name (of_ingest ranges version) = "ingest"
name (of_compaction i) = "compaction"
name (of_delete_key i) = "delete-key"

abbrev pub body : Intent → List ℕ → List ℕ
body (of_mv i) = mv_body i
body (of_ingest ranges version) = ingest_body (sort ranges) version
body (of_compaction i) = compaction_body (sort i.input_parts) i
body (of_delete_key i) = delete_key_body (sort i.input_parts) i

-- The buffer that is hashed for an intent.
abbrev pub intent_bytes : ℕ → Intent → List ℕ
intent_bytes ht i = canonical_bytes ht (name i) 1 (body i)

-- Every id, offset, size and length is one that its machine type holds.
abbrev pub FitsIntent : Intent → Type 0
FitsIntent (of_mv i) = FitsMv i
FitsIntent (of_ingest ranges version) = FitsIngest (sort ranges) version
FitsIntent (of_compaction i) = FitsCompaction (sort i.input_parts) i
FitsIntent (of_delete_key i) = FitsDeleteKey (sort i.input_parts) i

pub canonical_parts-ok : (ps qs : List ℕ) → canonical_parts ps ≡ ok qs → sort ps ≡ qs
canonical_parts-ok [] qs h = ground arith
canonical_parts-ok (p ∷ ps) qs h = ground arith

pub canonical_ranges-ok : (rs qs : List IngestRange) → canonical_ranges rs ≡ ok qs → sort rs ≡ qs
canonical_ranges-ok [] qs h = ground arith
canonical_ranges-ok (r ∷ rs) qs h = ground arith

with_sort_key-ok :
    (keys : List String) (built : Result OperationIdentity OperationError) (a : OperationIdentity)
    → with_sort_key keys built ≡ ok a
    → built ≡ ok a
with_sort_key-ok [] built a h = ground arith
with_sort_key-ok (k ∷ keys) built a h = h

module _ (hash : List ℕ → List ℕ) (ht : ℕ) where
  finish-ok :
      (d : String) (b : List ℕ → List ℕ) (a : OperationIdentity)
      → finish hash ht d 1 b ≡ ok a
      → (a.hypertable_id ≡ ht) × (a.fingerprint ≡ hash (canonical_bytes ht d 1 b))
  unfolding finish
  finish-ok d b a h = ground arith

  pub identify-ok :
      (i : Intent) (a : OperationIdentity)
      → identify hash ht i ≡ ok a
      → (a.hypertable_id ≡ ht) × (a.fingerprint ≡ hash (intent_bytes ht i))
  unfolding mv ingest compaction delete_key
  identify-ok (of_mv i) a h = ground (arith, finish-ok "mv" (mv_body i) a)
  identify-ok (of_ingest rs v) a h =
      let (qs, (found, done)) =
        >>=-ok (canonical_ranges rs) (λ qs. finish hash ht "ingest" 1 (ingest_body qs v)) a h in
      finish-ok "ingest" (ingest_body (sort rs) v) a (rw (canonical_ranges-ok rs qs found) done)
  identify-ok (of_compaction i) a h =
      let (qs, (found, done)) =
        >>=-ok (canonical_parts i.input_parts)
          (λ ps. with_sort_key i.sort_key (finish hash ht "compaction" 1 (compaction_body ps i))) a
          h in
      finish-ok "compaction" (compaction_body (sort i.input_parts) i) a
        (rw (canonical_parts-ok i.input_parts qs found) (with_sort_key-ok i.sort_key _ a done))
  identify-ok (of_delete_key i) a h =
      let (qs, (found, done)) =
        >>=-ok (canonical_parts i.input_parts)
          (λ ps. with_sort_key i.sort_key (finish hash ht "delete-key" 1 (delete_key_body ps i))) a
          h in
      finish-ok "delete-key" (delete_key_body (sort i.input_parts) i) a
        (rw (canonical_parts-ok i.input_parts qs found) (with_sort_key-ok i.sort_key _ a done))

fits_name : (i : Intent) → FitsText (name i)
fits_name (of_mv i) = omega arith
fits_name (of_ingest ranges version) = omega arith
fits_name (of_compaction i) = omega arith
fits_name (of_delete_key i) = omega arith

-- The four domains differ in their first letters.
abbrev initial : String → ℕ
initial empty = 0
initial (char_then c s) = code c

body-normal :
    (i j : Intent)
    → FitsIntent i
    → FitsIntent j
    → name i ≡ name j
    → body i [] ≡ body j []
    → normal i ≡ normal j
body-normal (of_mv i) (of_mv j) a b n h = ap of_mv (mv_body-prefix i j a b h)
body-normal (of_ingest rs v) (of_ingest qs w) a b n h =
    let (ranges, versions) = ingest_body-prefix (sort rs) (sort qs) v w a b h in
    λ k. of_ingest (ranges k) (versions k)
body-normal (of_compaction i) (of_compaction j) a b n h =
    ap of_compaction (compaction_body-prefix (sort i.input_parts) (sort j.input_parts) i j a b h)
body-normal (of_delete_key i) (of_delete_key j) a b n h =
    ap of_delete_key (delete_key_body-prefix (sort i.input_parts) (sort j.input_parts) i j a b h)
body-normal i j a b n h = absurd (omega (arith, ap initial n))

-- Identities with one fingerprint are of one hypertable, and of one intent up to the order of its
-- parts, its ranges and its objects' keys, if the digest tells the two buffers apart and the
-- numbers are within their machine types.
pub identify-normal :
    (hash : List ℕ → List ℕ) (ht kt : ℕ) (i j : Intent) (a b : OperationIdentity)
    → (hash (intent_bytes ht i) ≡ hash (intent_bytes kt j) → intent_bytes ht i ≡ intent_bytes kt j)
    → FitsId ht × FitsIntent i
    → FitsId kt × FitsIntent j
    → identify hash ht i ≡ ok a
    → identify hash kt j ≡ ok b
    → a.fingerprint ≡ b.fingerprint
    → (ht ≡ kt) × (normal i ≡ normal j)
identify-normal hash ht kt i j a b apart p q f g same =
    let (_, left) = identify-ok hash ht i a f in
    let (_, right) = identify-ok hash kt j b g in
    let (names, tables, bodies) =
      canonical_bytes-prefix ht kt (name i) (name j) (body i) (body j) p.0 q.0 (fits_name i)
        (fits_name j) (apart (sym left ∙ (same ∙ right))) in
    (tables, body-normal i j p.1 q.1 names bodies)
