-- ===== src/Core/Operation/Ranges.antt =====
-- The offset ranges that `canonical_ranges` of operation.rs lets into an identity.
use ukiel.Base.{
  ◌≡◌, subst, ◌∙◌, eq_iff, sym, ap, List, [], ◌∷◌, All, All-imp, Bool, true, false, ◌&&◌, ◌==◌,
  string_eq, none, arith, inl, inr, Bool-cases,
}
use ukiel.Base.Int.{leℤ, int_eq}
use ukiel.Base.Sort.{
  Sorted, sort, sort-Sorted, le_pair-between, list_order, ℤ_order, pair_order, nat_order,
}
use ukiel.Base.Result.{ok}
use ukiel.Core.Canonical.{utf8}
use ukiel.Core.Canonical.Prefix.{utf8-injective}
use ukiel.Core.Intent.{
  IngestRange, canonical_ranges, checked_ranges, check_ranges, overlapped, range_order, range_key,
}

-- Some offset of a topic-partition is in both ranges.
abbrev pub meet : IngestRange → IngestRange → Bool
meet r q =
    r.topic == q.topic && (r.partition == q.partition && (leℤ q.first r.last && leℤ r.first q.last))

abbrev pub Disjoint : List IngestRange → Type 0
Disjoint [] = Unit
Disjoint (r ∷ rs) = All (λ q. meet r q ≡ false) rs × Disjoint rs

-- The range ends before the next one of its topic-partition starts.
abbrev before : IngestRange → IngestRange → Bool
before r q = r.topic == q.topic && (r.partition == q.partition && leℤ q.first r.last)

before-cases :
    (r q : IngestRange)
    → before r q ≡ true
    → (r.topic ≡ q.topic) × (r.partition ≡ q.partition) × (leℤ q.first r.last ≡ true)
before-cases r q h = ground (arith, eq_iff r.topic q.topic, int_eq.same_iff r.partition q.partition)

before-met :
    (r q : IngestRange)
    → r.topic ≡ q.topic
    → r.partition ≡ q.partition
    → before r q ≡ leℤ q.first r.last
before-met r q t p = ground (arith, eq_iff r.topic q.topic, int_eq.same_iff r.partition q.partition)

-- Between two ranges of one topic-partition there are, in order, only ranges of it.
before_next :
    (r n q : IngestRange)
    → range_order.le r n ≡ true
    → range_order.le n q ≡ true
    → before r n ≡ false
    → before n q ≡ false
    → leℤ n.first n.last ≡ true
    → before r q ≡ false
before_next r n q a b c d e = elim (Bool-cases (before r q)) [
  | inr f ↦ f
  | inl f ↦
      let (topics, partitions, firsts) = before-cases r q f in
      let (texts, onward, beyond) =
        le_pair-between (range_key r) (range_key n) (range_key q) a b (ap utf8 topics) in
      let (same, _, _) =
        le_pair-between (range_key r).1 (range_key n).1 (range_key q).1 onward beyond partitions in
      let topic = utf8-injective r.topic n.topic texts in
      ground (
        arith,
        before-met r n topic same,
        before-met n q (sym topic ∙ topics) (sym same ∙ partitions),
        firsts,
        c,
        d,
        e,
      )
]

abbrev Separate : List IngestRange → Type 0
Separate [] = Unit
Separate (r ∷ rs) = All (λ q. before r q ≡ false) rs × Separate rs

before-All :
    (r n : IngestRange) (qs : List IngestRange)
    → range_order.le r n ≡ true
    → before r n ≡ false
    → leℤ n.first n.last ≡ true
    → All (λ q. range_order.le n q ≡ true) qs
    → All (λ q. before n q ≡ false) qs
    → All (λ q. before r q ≡ false) qs
before-All r n [] a c e s b = tt
before-All r n (q ∷ qs) a c e s b =
    (before_next r n q a s.0 c b.0 e, before-All r n qs a c e s.1 b.1)

ranges-Separate :
    (rs : List IngestRange)
    → Sorted rs
    → check_ranges rs ≡ ok tt
    → overlapped rs ≡ none
    → Separate rs
ranges-Separate [] s c o = tt
ranges-Separate (r ∷ []) s c o = (tt, tt)
ranges-Separate (r ∷ n ∷ rs) s c o =
    let rest = ranges-Separate (n ∷ rs) s.1 (ground arith) (ground arith) in
    let next : before r n ≡ false = ground arith in
    ((next, before-All r n rs s.0.0 next (ground arith) s.1.0 rest.0), rest)

before-meet : (r q : IngestRange) → before r q ≡ false → meet r q ≡ false
before-meet r q h = ground arith

Separate-Disjoint : (rs : List IngestRange) → Separate rs → Disjoint rs
Separate-Disjoint [] s = tt
Separate-Disjoint (r ∷ rs) s = (All-imp (before-meet r) rs s.0, Separate-Disjoint rs s.1)

checked_ranges-ok :
    (rs qs : List IngestRange)
    → checked_ranges rs ≡ ok qs
    → (rs ≡ qs) × (check_ranges rs ≡ ok tt) × (overlapped rs ≡ none)
checked_ranges-ok rs qs h = ground arith

-- The ranges of an identity are those of its intent, in order, and no offset of a topic-partition
-- is in two of them.
pub canonical_ranges-Disjoint :
    (rs qs : List IngestRange) → canonical_ranges rs ≡ ok qs → (sort rs ≡ qs) × Disjoint qs
canonical_ranges-Disjoint [] qs h = absurd (ground arith)
canonical_ranges-Disjoint (r ∷ rs) qs h =
    let (same, checked, clear) = checked_ranges-ok (sort (r ∷ rs)) qs h in
    (
      same,
      subst Disjoint same (
          Separate-Disjoint (sort (r ∷ rs))
            (ranges-Separate (sort (r ∷ rs)) (sort-Sorted (r ∷ rs)) checked clear)),
    )
