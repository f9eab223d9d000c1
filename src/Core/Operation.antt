-- ===== src/Core/Operation.antt =====
-- crates/ukiel-core/src/operation.rs: the factories of an identity and its key. `hash` is blake3, the library's 32 bytes of a buffer. An id is a natural number, so
-- that the test for a positive one is the test for zero.
mod Examples
pub mod Bytes
pub mod Identify
pub mod Outcome
pub mod Key
pub mod Ranges
pub mod Reorder
pub mod Shape
use Prim.Native.Char.{Char, code}
use Prim.Native.String.{[] as empty, ◌∷◌ as char_then}
use mathlib.Core.Option
use ukiel.Base.{
  ℕ, zero, suc, ◌/◌, ◌%◌, String, List, [], ◌∷◌, length, Option, none, some, ltb, leb, ◌==◌, nat_eq,
  string_eq, if◌then◌else◌,
}
use ukiel.Base.Int.{pos}
use ukiel.Base.Sort.{nat_order, ℤ_order, list_order, pair_order}
use ukiel.Base.Result.{Result, ok, err, ◌>>=◌}
use ukiel.Core.Commit.{OperationIdentity}
use ukiel.Core.Canonical.{utf8, str, int, list, placement, json}
use ukiel.Core.Intent.{
  IngestRange, MvIntent, CompactionIntent, DeleteKeyIntent, OperationError, invalid_id,
  mv_self_loop, empty_sort_key, key_too_long, canonical_parts, canonical_ranges,
}

abbrev pub max_operation_key_len : ℕ
max_operation_key_len = 128

-- The character at a place of a text, which is its last one from its end on.
abbrev pub pick : ℕ → Char → String → Char
pick n c empty = c
pick zero c (char_then d s) = c
pick (suc n) c (char_then d s) = pick n d s

abbrev pub digit : ℕ → Char
digit n = pick n "0" "123456789abcdef"

abbrev pub hex : List ℕ → String
hex [] = empty
hex (b ∷ bytes) = char_then (digit (b / 16)) (char_then (digit (b % 16)) (hex bytes))

-- A `u32` in decimal, before a text: ten digits are enough.
abbrev pub decimal : ℕ → ℕ → String → String
decimal zero n after = after
decimal (suc digits) n after =
    let rest = decimal digits (n / 10) (char_then (digit (n % 10)) after) in
    if ltb n 10 then char_then (digit n) after else rest

abbrev pub join : String → String → String
join empty t = t
join (char_then c s) t = char_then c (join s t)

-- `format!("ukiel/{domain}/v{version}/{}", hex(&fingerprint))`.
abbrev pub operation_key : String → ℕ → List ℕ → String
operation_key domain version fingerprint =
    join "ukiel/" (join domain (join "/v" (decimal 10 version (char_then "/" (hex fingerprint)))))

unfoldable pub canonical_bytes : ℕ → String → ℕ → (List ℕ → List ℕ) → List ℕ
canonical_bytes ht domain version body =
    str "ukiel" (str domain (int (pos version) (int (pos ht) (body []))))

-- The id of the first field that is not positive.
abbrev pub not_positive : List (String × ℕ) → Option OperationError
not_positive [] = none
not_positive ((name, value) ∷ fields) =
    let rest = not_positive fields in if leb value 0 then some (invalid_id name value) else rest

-- The part of a key that `domain` returns: between its first and its second slash.
abbrev pub until_slash : String → String
until_slash empty = empty
until_slash (char_then c s) =
    let rest = until_slash s in if code c == 47 then empty else char_then c rest

abbrev pub after_slash : String → Option String
after_slash empty = none
after_slash (char_then c s) = let rest = after_slash s in if code c == 47 then some s else rest

unfoldable pub domain : OperationIdentity → Option String
domain identity = Option.map until_slash (after_slash identity.key)

abbrev pub push_range : IngestRange → List ℕ → List ℕ
push_range r after = str r.topic (int r.partition (int r.first (int r.last after)))

unfoldable pub mv_body : MvIntent → List ℕ → List ℕ
mv_body i after = int (pos i.transformation_version) (
    int (pos i.pipeline_id) (int (pos i.source_hypertable_id) (int (pos i.source_commit_id) after)))

unfoldable pub ingest_body : List IngestRange → ℕ → List ℕ → List ℕ
ingest_body ranges version after = int (pos version) (list push_range ranges after)

unfoldable pub compaction_body : List ℕ → CompactionIntent → List ℕ → List ℕ
compaction_body parts i after = int (pos i.transformation_version) (
    int (pos i.output_level) (
      list (λ id. int (pos id)) parts
        (json i.partition_values
          (json i.table_schema (list str i.sort_key (placement i.placement after))))))

unfoldable pub delete_key_body : List ℕ → DeleteKeyIntent → List ℕ → List ℕ
delete_key_body parts i after = int (pos i.transformation_version) (
    int i.packing_key (
      list (λ id. int (pos id)) parts
        (json i.table_schema (list str i.sort_key (placement i.placement after)))))

abbrev pub mv_ids : ℕ → MvIntent → List (String × ℕ)
mv_ids target i =
    ("target_hypertable_id", target)
    ∷ ("pipeline_id", i.pipeline_id)
    ∷ ("source_hypertable_id", i.source_hypertable_id)
    ∷ ("source_commit_id", i.source_commit_id)
    ∷ []

-- The early return of an error that a loop of checks found.
abbrev pub unless :
    Option OperationError
    → Result OperationIdentity OperationError
    → Result OperationIdentity OperationError
unless (some e) built = err e
unless none built = built

-- `if sort_key.is_empty()`.
abbrev pub with_sort_key :
    List String → Result OperationIdentity OperationError → Result OperationIdentity OperationError
with_sort_key [] built = err empty_sort_key
with_sort_key (k ∷ keys) built = built

module _ (hash : List ℕ → List ℕ) where
  unfoldable pub finish :
      ℕ → String → ℕ → (List ℕ → List ℕ) → Result OperationIdentity OperationError
  finish ht domain version body =
      let fingerprint = hash (canonical_bytes ht domain version body) in
      let key = operation_key domain version fingerprint in
      let bytes = length (utf8 key) in
      if ltb max_operation_key_len bytes
      then err (key_too_long bytes)
      else ok (record { hypertable_id = ht; key = key; fingerprint = fingerprint })

  unfoldable pub mv : ℕ → MvIntent → Result OperationIdentity OperationError
  mv target i = unless (not_positive (mv_ids target i)) (
      if target == i.source_hypertable_id
      then err mv_self_loop
      else finish target "mv" 1 (mv_body i))

  unfoldable pub ingest : ℕ → List IngestRange → ℕ → Result OperationIdentity OperationError
  ingest ht ranges version =
      canonical_ranges ranges >>= λ rs. finish ht "ingest" 1 (ingest_body rs version)

  unfoldable pub compaction : ℕ → CompactionIntent → Result OperationIdentity OperationError
  compaction ht i = canonical_parts i.input_parts >>= λ parts.
      with_sort_key i.sort_key (finish ht "compaction" 1 (compaction_body parts i))

  unfoldable pub delete_key : ℕ → DeleteKeyIntent → Result OperationIdentity OperationError
  delete_key ht i = canonical_parts i.input_parts >>= λ parts.
      with_sort_key i.sort_key (finish ht "delete-key" 1 (delete_key_body parts i))

unfoldable pub from_stored : ℕ → String → List ℕ → Result OperationIdentity OperationError
from_stored ht key fingerprint =
    let bytes = length (utf8 key) in
    if ltb max_operation_key_len bytes
    then err (key_too_long bytes)
    else ok (record { hypertable_id = ht; key = key; fingerprint = fingerprint })
