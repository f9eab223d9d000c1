-- ===== src/Core/Operation/Bytes.antt =====
-- The buffers that the factories of operation.rs hash, read back.
use ukiel.Base.{ℕ, ◌^◌, ◌<◌, ◌≡◌, ap, String, List, [], length, All, arith}
use ukiel.Base.Int.{pos, pos_part}
use ukiel.Core.Canonical.{int}
use ukiel.Core.Canonical.Prefix.{FitsSize, FitsText, FitsInt, str-prefix, int-prefix}
use ukiel.Core.Canonical.Lists.{list-prefix}
use ukiel.Core.Intent.{IngestRange, MvIntent, range_order}
use ukiel.Core.Operation.{canonical_bytes, push_range, mv_body, ingest_body}

-- An id or a version, as `int` is given it.
abbrev pub FitsId : ℕ → Type 0
FitsId n = n < 2 ^ 63

pub id_prefix :
    (m n : ℕ) (q r : List ℕ)
    → FitsId m
    → FitsId n
    → int (pos m) q ≡ int (pos n) r
    → (m ≡ n) × (q ≡ r)
id_prefix m n q r a b h =
    let (same, after) = int-prefix (pos m) (pos n) q r a b h in
    (omega (arith, ap pos_part same), after)

pub canonical_bytes-prefix :
    (ht kt : ℕ) (d e : String) (b c : List ℕ → List ℕ)
    → FitsId ht
    → FitsId kt
    → FitsText d
    → FitsText e
    → canonical_bytes ht d 1 b ≡ canonical_bytes kt e 1 c
    → (d ≡ e) × (ht ≡ kt) × (b [] ≡ c [])
unfolding canonical_bytes
canonical_bytes-prefix ht kt d e b c f g p q h =
    let name = str-prefix "ukiel" "ukiel" _ _ (omega arith) (omega arith) h in
    let (domains, version) = str-prefix d e _ _ p q name.1 in
    let body = id_prefix 1 1 _ _ (omega arith) (omega arith) version in
    let (tables, rest) = id_prefix ht kt _ _ f g body.1 in (domains, tables, rest)

abbrev pub FitsRange : IngestRange → Type 0
FitsRange r = FitsText r.topic × FitsInt r.partition × FitsInt r.first × FitsInt r.last

range_prefix :
    (r s : IngestRange) (p q : List ℕ)
    → FitsRange r
    → FitsRange s
    → push_range r p ≡ push_range s q
    → (r ≡ s) × (p ≡ q)
range_prefix r s p q a b h =
    let (topics, h) = str-prefix r.topic s.topic _ _ a.0 b.0 h in
    let (partitions, h) = int-prefix r.partition s.partition _ _ a.1 b.1 h in
    let (firsts, h) = int-prefix r.first s.first _ _ a.2 b.2 h in
    let (lasts, h) = int-prefix r.last s.last _ _ a.3 b.3 h in
    (
      λ i. record { topic = topics i; partition = partitions i; first = firsts i; last = lasts i },
      h,
    )

abbrev pub FitsMv : MvIntent → Type 0
FitsMv i =
    FitsId i.pipeline_id
    × FitsId i.source_hypertable_id
    × FitsId i.source_commit_id
    × FitsId i.transformation_version

pub mv_body-prefix : (i j : MvIntent) → FitsMv i → FitsMv j → mv_body i [] ≡ mv_body j [] → i ≡ j
unfolding mv_body
mv_body-prefix i j a b h =
    let (versions, h) = id_prefix i.transformation_version j.transformation_version _ _ a.3 b.3 h in
    let (pipelines, h) = id_prefix i.pipeline_id j.pipeline_id _ _ a.0 b.0 h in
    let (tables, h) = id_prefix i.source_hypertable_id j.source_hypertable_id _ _ a.1 b.1 h in
    let (commits, h) = id_prefix i.source_commit_id j.source_commit_id _ _ a.2 b.2 h in
    λ k. record {
      pipeline_id = pipelines k;
      source_hypertable_id = tables k;
      source_commit_id = commits k;
      transformation_version = versions k;
    }

abbrev pub FitsIngest : List IngestRange → ℕ → Type 0
FitsIngest ranges version = (FitsSize (length ranges) × All FitsRange ranges) × FitsId version

pub ingest_body-prefix :
    (rs qs : List IngestRange) (v w : ℕ)
    → FitsIngest rs v
    → FitsIngest qs w
    → ingest_body rs v [] ≡ ingest_body qs w []
    → (rs ≡ qs) × (v ≡ w)
unfolding ingest_body
ingest_body-prefix rs qs v w a b h =
    let (versions, h) = id_prefix v w _ _ a.1 b.1 h in
    let ranges = list-prefix push_range FitsRange range_prefix rs qs [] [] a.0 b.0 h in
    (ranges.0, versions)
