-- ===== src/Core/Operation/Shape.antt =====
-- The buffers of `compaction` and `delete_key` of operation.rs, read back.
use ukiel.Base.{ℕ, ◌≡◌, String, List, [], length, All}
use ukiel.Base.Int.{pos}
use ukiel.Core.Canonical.{str, int, sorted}
use ukiel.Core.Canonical.Prefix.{FitsSize, FitsText, FitsInt, str-prefix, int-prefix}
use ukiel.Core.Canonical.Lists.{
  FitsPlacement, FitsValue, list-prefix, json-prefix, placement-prefix,
}
use ukiel.Core.Intent.{CompactionIntent, DeleteKeyIntent}
use ukiel.Core.Operation.{compaction_body, delete_key_body}
use ukiel.Core.Operation.Bytes.{FitsId, id_prefix}

abbrev pub FitsParts : List ℕ → Type 0
FitsParts ids = FitsSize (length ids) × All FitsId ids

abbrev pub FitsNames : List String → Type 0
FitsNames names = FitsSize (length names) × All FitsText names

-- What keeps every number of an intent within its machine type.
abbrev pub FitsCompaction : List ℕ → CompactionIntent → Type 0
FitsCompaction parts i =
    FitsId i.transformation_version
    × FitsId i.output_level
    × FitsParts parts
    × FitsValue (sorted i.partition_values)
    × FitsValue (sorted i.table_schema)
    × FitsNames i.sort_key
    × FitsPlacement i.placement

abbrev pub FitsDeleteKey : List ℕ → DeleteKeyIntent → Type 0
FitsDeleteKey parts i =
    FitsId i.transformation_version
    × FitsInt i.packing_key
    × FitsParts parts
    × FitsValue (sorted i.table_schema)
    × FitsNames i.sort_key
    × FitsPlacement i.placement

-- An intent with its parts and its objects' keys in order.
abbrev pub normal_compaction : List ℕ → CompactionIntent → CompactionIntent
normal_compaction parts i = record i {
  input_parts = parts;
  partition_values = sorted i.partition_values;
  table_schema = sorted i.table_schema;
}

abbrev pub normal_delete_key : List ℕ → DeleteKeyIntent → DeleteKeyIntent
normal_delete_key parts i = record i { input_parts = parts; table_schema = sorted i.table_schema }

pub compaction_body-prefix :
    (ps qs : List ℕ) (i j : CompactionIntent)
    → FitsCompaction ps i
    → FitsCompaction qs j
    → compaction_body ps i [] ≡ compaction_body qs j []
    → normal_compaction ps i ≡ normal_compaction qs j
unfolding compaction_body
compaction_body-prefix ps qs i j a b h =
    let (versions, h) = id_prefix i.transformation_version j.transformation_version _ _ a.0 b.0 h in
    let (levels, h) = id_prefix i.output_level j.output_level _ _ a.1 b.1 h in
    let (parts, h) = list-prefix (λ (id : ℕ). int (pos id)) FitsId id_prefix ps qs _ _ a.2 b.2 h in
    let (values, h) = json-prefix i.partition_values j.partition_values _ _ a.3 b.3 h in
    let (schemas, h) = json-prefix i.table_schema j.table_schema _ _ a.4 b.4 h in
    let (keys, h) = list-prefix str FitsText str-prefix i.sort_key j.sort_key _ _ a.5 b.5 h in
    let placements = placement-prefix i.placement j.placement [] [] a.6 b.6 h in
    λ k. record {
      output_level = levels k;
      input_parts = parts k;
      partition_values = values k;
      table_schema = schemas k;
      sort_key = keys k;
      placement = placements.0 k;
      transformation_version = versions k;
    }

pub delete_key_body-prefix :
    (ps qs : List ℕ) (i j : DeleteKeyIntent)
    → FitsDeleteKey ps i
    → FitsDeleteKey qs j
    → delete_key_body ps i [] ≡ delete_key_body qs j []
    → normal_delete_key ps i ≡ normal_delete_key qs j
unfolding delete_key_body
delete_key_body-prefix ps qs i j a b h =
    let (versions, h) = id_prefix i.transformation_version j.transformation_version _ _ a.0 b.0 h in
    let (keys, h) = int-prefix i.packing_key j.packing_key _ _ a.1 b.1 h in
    let (parts, h) = list-prefix (λ (id : ℕ). int (pos id)) FitsId id_prefix ps qs _ _ a.2 b.2 h in
    let (schemas, h) = json-prefix i.table_schema j.table_schema _ _ a.3 b.3 h in
    let (names, h) = list-prefix str FitsText str-prefix i.sort_key j.sort_key _ _ a.4 b.4 h in
    let placements = placement-prefix i.placement j.placement [] [] a.5 b.5 h in
    λ k. record {
      packing_key = keys k;
      input_parts = parts k;
      table_schema = schemas k;
      sort_key = names k;
      placement = placements.0 k;
      transformation_version = versions k;
    }
