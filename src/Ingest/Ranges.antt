-- ===== src/Ingest/Ranges.antt =====
-- The offset ranges that consumer.rs flushes, as the identities of operation.rs see them.
use ukiel.Base.{
  ℕ, String, List, [], ◌∷◌, All, All-imp, Bool, true, false, not, ◌||◌, Option, none, some, ◌==◌,
  string_eq, ◌≡◌, ◌≢◌, refl, sym, ap, subst, arith, Bool-cases, inl, inr,
}
use ukiel.Base.Int.{ℤ, leℤ, int_eq}
use ukiel.Base.Sort.{ℤ_order, sort, insert, sort-All, insert-All, leℤ-trans}
use ukiel.Base.Result.{ok}
use ukiel.Core.Intent.{IngestRange, range_order, canonical_ranges, check_ranges, overlapped}
use ukiel.Ingest.Buffers.{
  IngestConfig, BufferedRange, Message, Buffers, of_partition, track_offset, keep_row, accepted,
  buffer_message, buffer_all, drained,
}

abbrev other : ℤ → ℤ → Bool
other p q = not (p == q)

-- One range for a partition, none of them inverted.
abbrev Distinct : List BufferedRange → Type 0
Distinct [] = Unit
Distinct (r ∷ rs) = All (λ q. other r.partition q.partition ≡ true) rs × Distinct rs

abbrev Forward : BufferedRange → Type 0
Forward r = leℤ r.first r.last ≡ true

-- Every message of the partition that is still to come is at the offset or beyond it.
abbrev pub ahead : ℤ → ℤ → Message → Bool
ahead partition offset m = not (partition == m.partition) || leℤ offset m.offset

abbrev pub InOrder : List Message → Type 0
InOrder [] = Unit
InOrder (m ∷ ms) = All (λ n. ahead m.partition m.offset n ≡ true) ms × InOrder ms

abbrev Reaches : List Message → BufferedRange → Type 0
Reaches ms r = All (λ n. ahead r.partition r.last n ≡ true) ms

module _ (partition offset : ℤ) where
  abbrev started : BufferedRange
  started = record { partition = partition; first = offset; last = offset }

  track_offset-All {κ μ} :
      (P : BufferedRange → Type κ) (Q : BufferedRange → Type μ)
      → ((r : BufferedRange) → P r → Q r)
      → ((r : BufferedRange)
          → P r
          → of_partition partition r ≡ true
          → Q (record r { last = offset }))
      → Q started
      → (rs : List BufferedRange) → All P rs
      → All Q (track_offset partition offset rs)
  unfolding track_offset
  track_offset-All P Q keep hit new [] a = (new, tt)
  track_offset-All P Q keep hit new (r ∷ rs) a = elim (Bool-cases (of_partition partition r)) [
    | inl e ↦ rw e (hit r a.0 e, All-imp keep rs a.1)
    | inr e ↦ rw e (keep r a.0, track_offset-All P Q keep hit new rs a.1)
  ]

  track_offset-Distinct :
      (rs : List BufferedRange) → Distinct rs → Distinct (track_offset partition offset rs)
  unfolding track_offset
  track_offset-Distinct [] d = (tt, tt)
  track_offset-Distinct (r ∷ rs) d = elim (Bool-cases (of_partition partition r)) [
    | inl e ↦ rw e d
    | inr e ↦ rw e (
      track_offset-All (λ q. other r.partition q.partition ≡ true)
          (λ q. other r.partition q.partition ≡ true) (λ q h. h) (λ q h same. h) (ap not e) rs d.0,
      track_offset-Distinct rs d.1,
    )
  ]

-- What the ranges are to the messages to come.
abbrev Tracked : List Message → BufferedRange → Type 0
Tracked ms r = Forward r × Reaches ms r

hit-Tracked :
    (m : Message) (ms : List Message) (r : BufferedRange)
    → All (λ n. ahead m.partition m.offset n ≡ true) ms
    → Tracked (m ∷ ms) r
    → of_partition m.partition r ≡ true
    → Tracked ms (record r { last = m.offset })
hit-Tracked m ms r order (forward, reaches) e =
    let same : r.partition ≡ m.partition = (int_eq.same_iff r.partition m.partition).0 e in
    (
      leℤ-trans r.first r.last m.offset forward (ground (arith, reaches.0, e)),
      subst (λ k. All (λ n. ahead k m.offset n ≡ true) ms) (sym same) order,
    )

started-Tracked :
    (m : Message) (ms : List Message)
    → All (λ n. ahead m.partition m.offset n ≡ true) ms
    → Tracked ms (record { partition = m.partition; first = m.offset; last = m.offset })
started-Tracked m ms order = (ground arith, order)

module _ {ℓ} {Row : Type ℓ} (decode : List ℕ → Option Row) (field : String → Row → Option ℤ)
    (day_of : ℤ → Option String) (config : IngestConfig) (packing_key ts_column : String) where
  keep_row-ranges :
      (a : Option (Row × (ℤ × String))) (b : Buffers Row)
      → (keep_row Row decode field day_of config packing_key ts_column a b).ranges ≡ b.ranges
  keep_row-ranges none b = refl
  keep_row-ranges (some (row, (ts, day))) b = refl

  pub buffer_message-ranges :
      (m : Message) (b : Buffers Row)
      → (buffer_message Row decode field day_of config packing_key ts_column m b).ranges
        ≡ track_offset m.partition m.offset b.ranges
  unfolding buffer_message
  buffer_message-ranges m b =
      keep_row-ranges (accepted Row decode field day_of config packing_key ts_column m) _

  pub buffer_all-Tracked :
      (ms : List Message) (b : Buffers Row)
      → InOrder ms
      → Distinct b.ranges
      → All (Tracked ms) b.ranges
      → Distinct (buffer_all Row decode field day_of config packing_key ts_column ms b).ranges
        × All Forward (buffer_all Row decode field day_of config packing_key ts_column ms b).ranges
  unfolding buffer_all
  buffer_all-Tracked [] b order d t = (d, All-imp (λ r h. h.0) b.ranges t)
  buffer_all-Tracked (m ∷ ms) b order d t =
      let after = sym (buffer_message-ranges m b) in
      buffer_all-Tracked ms
        (buffer_message Row decode field day_of config packing_key ts_column m b) order.1
        (subst Distinct after (track_offset-Distinct m.partition m.offset b.ranges d))
        (subst (All (Tracked ms)) after (
          track_offset-All m.partition m.offset (Tracked (m ∷ ms)) (Tracked ms)
            (λ r h. (h.0, h.1.1)) (λ r h e. hit-Tracked m ms r order.0 h e)
            (started-Tracked m ms order.0) b.ranges t))

-- The same of the ranges that an identity is built from.
abbrev Fine : IngestRange → Type 0
Fine r = ((r.topic == "") ≡ false) × (leℤ r.first r.last ≡ true)

abbrev Apart : List IngestRange → Type 0
Apart [] = Unit
Apart (r ∷ rs) = All (λ q. other r.partition q.partition ≡ true) rs × Apart rs

module _ (topic : String) (named : (topic == "") ≡ false) where
  pub drained-Fine : (rs : List BufferedRange) → All Forward rs → All Fine (drained topic rs)
  unfolding drained
  drained-Fine [] f = tt
  drained-Fine (r ∷ rs) f = ((named, f.0), drained-Fine rs f.1)

  drained-other :
      (p : ℤ) (rs : List BufferedRange)
      → All (λ q. other p q.partition ≡ true) rs
      → All (λ q. other p q.partition ≡ true) (drained topic rs)
  unfolding drained
  drained-other p [] a = tt
  drained-other p (r ∷ rs) a = (a.0, drained-other p rs a.1)

  pub drained-Apart : (rs : List BufferedRange) → Distinct rs → Apart (drained topic rs)
  unfolding drained
  drained-Apart [] d = tt
  drained-Apart (r ∷ rs) d = (drained-other r.partition rs d.0, drained-Apart rs d.1)

other_comm : (p q : ℤ) → other p q ≡ true → other q p ≡ true
other_comm p q h = ground arith

insert-Apart :
    (r : IngestRange) (rs : List IngestRange)
    → All (λ q. other r.partition q.partition ≡ true) rs
    → Apart rs
    → Apart (insert r rs)
insert-Apart r [] a d = (tt, tt)
insert-Apart r (q ∷ rs) a d = elim (Bool-cases (range_order.le r q)) [
  | inl e ↦ rw e (a, d)
  | inr e ↦ rw e (
    insert-All (λ x. other q.partition x.partition ≡ true) r rs
        (other_comm r.partition q.partition a.0) d.0,
    insert-Apart r rs a.1 d.1,
  )
]

sort-Apart : (rs : List IngestRange) → Apart rs → Apart (sort rs)
sort-Apart [] d = tt
sort-Apart (r ∷ rs) d =
    insert-Apart r (sort rs) (sort-All (λ q. other r.partition q.partition ≡ true) rs d.0)
      (sort-Apart rs d.1)

check_ranges-Fine : (rs : List IngestRange) → All Fine rs → check_ranges rs ≡ ok tt
check_ranges-Fine [] f = refl
check_ranges-Fine (r ∷ rs) f = rw (f.0.0, f.0.1) (check_ranges-Fine rs f.1)

overlapped-Apart : (rs : List IngestRange) → Apart rs → overlapped rs ≡ none
overlapped-Apart [] d = refl
overlapped-Apart (r ∷ []) d = refl
overlapped-Apart (r ∷ q ∷ rs) d = ground (arith, d.0.0, overlapped-Apart (q ∷ rs) d.1)

pub canonical_ranges-Apart :
    (rs : List IngestRange) → rs ≢ [] → All Fine rs → Apart rs → canonical_ranges rs ≡ ok (sort rs)
canonical_ranges-Apart [] some_range f d = absurd (some_range refl)
canonical_ranges-Apart (r ∷ rs) some_range f d =
    rw
      (
        check_ranges-Fine (sort (r ∷ rs)) (sort-All Fine (r ∷ rs) f),
        overlapped-Apart (sort (r ∷ rs)) (sort-Apart (r ∷ rs) d),
      )
      refl
