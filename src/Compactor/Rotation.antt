-- ===== src/Compactor/Rotation.antt =====
-- compactor.rs: a rotation of a sweep over partitions that stay as they are.
use ukiel.Base.{
  ℕ, zero, suc, ◌+◌, ◌*◌, ◌≡◌, ◌<◌, ◌≤◌, refl, sym, ap, subst, ◌∙◌, String, true, false, not, ◌&&◌,
  Option, none, some, List, [], ◌∷◌, ◌++◌, arith, select, length, take, drop, ltb, if◌then◌else◌,
  map, ◌==◌, nat_eq, Bool-cases, inl, inr,
}
use mathlib.Core.List.{append_assoc}
use ukiel.Base.Sort.{Order, sort}
use ukiel.Catalog.Db.{Db, PartRow}
use ukiel.Catalog.Parts.{is_live}
use ukiel.Catalog.Windows.{
  CandidateWindow, from_rows, window_of, window_sql, beyond, peer_holds, live_partitions, triggered,
  compaction_candidates,
}
use ukiel.Catalog.Windows.Offered.{last, present-joined, last-joined}
use ukiel.Catalog.Windows.Resumed.{
  Once, Strict, select-Once, distinct-Once, sort-Strict, sort-select, select-beyond, select_all,
}
use ukiel.Compactor.{CompactionStats, is_empty, sweep}

-- What so many sweeps are offered, one after the other.
unfoldable pub offered :
    ℕ → ℕ → (Option String → CandidateWindow) → Option String → CompactionStats → List String
offered zero limit window_at cursor stats = []
offered (suc n) limit window_at cursor stats =
    let s = sweep limit window_at cursor stats in
    s.window.partitions ++ offered n limit window_at s.cursor s.stats

-- The window after each cursor is a slice of one list, and its cursor is its last partition.
pub record Slice (limit : ℕ) (window_at : Option String → CandidateWindow) (cursor : Option String)
    (rest : List String) : Type 0 where
  pub partitions : (window_at cursor).partitions ≡ take limit rest
  pub next : (window_at cursor).next_cursor ≡ last (take limit rest)

-- The cursor stands right before the rest of the list.
abbrev pub Before : List String → Option String → List String → Type 0
Before whole none rest = whole ≡ rest
Before whole (some a) rest = (pre : List String) × (whole ≡ pre ++ a ∷ rest)

-- A full slice that is not empty ends in its cursor.
full_slice :
    (k : ℕ) (rest : List String)
    → ltb (length (take (suc k) rest)) (suc k) ≡ false
    → (init : List String) × (a : String) × (last (take (suc k) rest) ≡ some a)
      × (rest ≡ init ++ a ∷ drop (suc k) rest)
full_slice k [] h = ground arith
full_slice zero (p ∷ rest) h = ([], p, refl, refl)
full_slice (suc k) (p ∷ []) h = ground arith
full_slice (suc k) (p ∷ q ∷ rest) h =
    let (init, a, e, g) = full_slice k (q ∷ rest) (ground arith) in
    (p ∷ init, a, e, ap (λ r. p ∷ r) g)

short :
    (limit : ℕ) (rest : List String)
    → ltb (length (take limit rest)) limit ≡ true
    → take limit rest ≡ rest
short zero rest h = ground arith
short (suc n) [] h = refl
short (suc n) (p ∷ rest) h = ap (λ r. p ∷ r) (short n rest (ground arith))

take-drop : (n : ℕ) (xs : List String) → take n xs ++ drop n xs ≡ xs
take-drop zero xs = refl
take-drop (suc n) [] = refl
take-drop (suc n) (x ∷ xs) = ap (λ ys. x ∷ ys) (take-drop n xs)

length-drop : (n : ℕ) (xs : List String) (m : ℕ) → length xs ≤ n + m → length (drop n xs) ≤ m
length-drop zero xs m h = omega (arith, h)
length-drop (suc n) [] m h = omega arith
length-drop (suc n) (x ∷ xs) m h = length-drop n xs m (omega (arith, h))

advance :
    (whole : List String) (cursor : Option String) (init : List String) (a : String)
    (rest : List String)
    → Before whole cursor (init ++ a ∷ rest)
    → Before whole (some a) rest
advance whole none init a rest b = (init, b)
advance whole (some c) init a rest (pre, b) =
    (pre ++ c ∷ init, b ∙ sym (append_assoc pre (c ∷ init) (a ∷ rest)))

full :
    (limit : ℕ) (rest : List String)
    → 0 < limit
    → ltb (length (take limit rest)) limit ≡ false
    → (init : List String) × (a : String) × (last (take limit rest) ≡ some a)
      × (rest ≡ init ++ a ∷ drop limit rest)
full zero rest p h = ground arith
full (suc k) rest p h = full_slice k rest h

module _ (limit : ℕ) (window_at : Option String → CandidateWindow) where
  abbrev resumes : CandidateWindow → Option String
  resumes w = if ltb (length w.partitions) limit then none else w.next_cursor

  -- A sweep that is offered something does not start over.
  offered_step :
      (n : ℕ) (cursor : Option String) (stats : CompactionStats)
      → is_empty (window_at cursor).partitions ≡ false
      → offered (suc n) limit window_at cursor stats
        ≡ (window_at cursor).partitions
          ++ offered n limit window_at
              (resumes (window_at cursor))
              (sweep limit window_at cursor stats).stats
  unfolding offered sweep
  offered_step n none stats h = refl
  offered_step n (some a) stats h = rw h refl

  module _ (whole : List String)
      (sliced : (cursor : Option String) (rest : List String)
        → Before whole cursor rest
        → Slice limit window_at cursor rest)
      (positive : 0 < limit) where
    not_empty : (q : String) (rest : List String) → is_empty (take limit (q ∷ rest)) ≡ false
    not_empty q rest = head_kept limit positive
      where
        head_kept : (k : ℕ) → 0 < k → is_empty (take k (q ∷ rest)) ≡ false
        head_kept zero p = ground arith
        head_kept (suc k) p = refl

    rotation :
        (n : ℕ) (cursor : Option String) (stats : CompactionStats) (rest : List String)
        → Before whole cursor rest
        → length rest ≤ n * limit
        → (more : List String) × (offered n limit window_at cursor stats ≡ rest ++ more)
    rotation n cursor stats [] b h = (offered n limit window_at cursor stats, refl)
    rotation zero cursor stats (q ∷ rest) b h = ground arith
    rotation (suc n) cursor stats (q ∷ rest) b h =
        elim (Bool-cases (ltb (length (take limit (q ∷ rest))) limit)) [
          | inl e ↦ (
            offered n limit window_at none after,
            step
                ∙ rw (slice.partitions, e)
                    (ap (λ ps. ps ++ offered n limit window_at none after)
                      (short limit (q ∷ rest) e)),
          )
          | inr e ↦
              let (init, a, ends, splits) = full limit (q ∷ rest) positive e in
              let (more, ih) =
                rotation n (some a) after (drop limit (q ∷ rest))
                  (advance whole cursor init a (drop limit (q ∷ rest))
                    (subst (Before whole cursor) splits b))
                  (length-drop limit (q ∷ rest) (n * limit) (omega (arith, h))) in
              (
                more,
                step
                    ∙ rw (slice.partitions, e, slice.next, ends, ih)
                        (sym (append_assoc (take limit (q ∷ rest)) (drop limit (q ∷ rest)) more)
                          ∙ ap (λ ps. ps ++ more) (take-drop limit (q ∷ rest))),
              )
        ]
      where
        slice : Slice limit window_at cursor (q ∷ rest)
        slice = sliced cursor (q ∷ rest) b

        after : CompactionStats
        after = (sweep limit window_at cursor stats).stats

        step :
            offered (suc n) limit window_at cursor stats
            ≡ (window_at cursor).partitions
              ++ offered n limit window_at (resumes (window_at cursor)) after
        step = offered_step n cursor stats (ap is_empty slice.partitions ∙ not_empty q rest)

live_partitions-Once : (ht : ℕ) (d : Db) → Once (live_partitions ht d)
live_partitions-Once ht d = distinct-Once (
    map (λ (p : PartRow). p.meta.partition_values)
      (select (λ (p : PartRow). p.hypertable_id == ht && is_live p) d.parts))

module _ ⦃o : Order String⦄ where
  select-Before :
      (whole rest : List String) (cursor : Option String)
      → Strict whole
      → Before whole cursor rest
      → select (beyond cursor) whole ≡ rest
  select-Before whole rest none s b = select_all whole ∙ b
  select-Before whole rest (some a) s (pre, e) =
      ap (select (beyond (some a))) e ∙ select-beyond pre a rest (subst Strict e s)

  -- The partitions of these that no peer holds, in the order of the sweep.
  abbrev pub unheld : ℕ → ℕ → ℕ → Db → List String → List String
  unheld ht owner clock d eligible =
      sort (select (λ p. not (peer_holds ht owner clock d p)) eligible)

  module _ (ht owner clock : ℕ) (d : Db) (limit : ℕ) where
    window_of-Before :
        (eligible : List String) (cursor : Option String) (rest : List String)
        → Once eligible
        → Before (unheld ht owner clock d eligible) cursor rest
        → window_of (peer_holds ht owner clock d) eligible limit cursor ≡ take limit rest
    window_of-Before eligible cursor rest once b = ap (take limit) (
        sort-select (λ p. not (peer_holds ht owner clock d p)) (beyond cursor) eligible once
        ∙ select-Before (unheld ht owner clock d eligible) rest cursor
            (sort-Strict (select (λ p. not (peer_holds ht owner clock d p)) eligible)
              (select-Once (λ p. not (peer_holds ht owner clock d p)) eligible once))
            b)

    window_sql-Slice :
        (eligible : List String) (cursor : Option String) (rest : List String)
        → Once eligible
        → Before (unheld ht owner clock d eligible) cursor rest
        → Slice limit (λ c. from_rows (window_sql ht owner clock d eligible limit c)) cursor rest
    unfolding from_rows window_sql
    window_sql-Slice eligible cursor rest once b = record {
      partitions = present-joined _ _ _ ∙ window_of-Before eligible cursor rest once b;
      next =
          last-joined (length eligible) (length (select (peer_holds ht owner clock d) eligible))
            (window_of (peer_holds ht owner clock d) eligible limit cursor)
          ∙ ap last (window_of-Before eligible cursor rest once b);
    }

    -- While the tables stay as they are, enough sweeps of the ladder from the head, so many that
    -- their windows have room for all, are offered first every partition that has a level at its
    -- trigger and that no peer holds, each once and in the order of the sweep, if the limit is not 0.
    pub sweep-rotation :
        0 < limit
        → (l0_fanout fanout n : ℕ) (stats : CompactionStats)
        → let eligible = select (triggered ht l0_fanout fanout d) (live_partitions ht d) in
          length (unheld ht owner clock d eligible) ≤ n * limit
          → (more : List String) × (offered n limit
                (λ after. compaction_candidates ht owner l0_fanout fanout limit after clock d)
                none
                stats
              ≡ unheld ht owner clock d eligible ++ more)
    unfolding compaction_candidates
    sweep-rotation positive l0_fanout fanout n stats h =
        rotation limit
          (λ after. compaction_candidates ht owner l0_fanout fanout limit after clock d)
          (unheld ht owner clock d
            (select (triggered ht l0_fanout fanout d) (live_partitions ht d)))
          (λ cursor rest.
            window_sql-Slice (select (triggered ht l0_fanout fanout d) (live_partitions ht d))
              cursor rest
              (select-Once (triggered ht l0_fanout fanout d) (live_partitions ht d)
                (live_partitions-Once ht d)))
          positive n none stats
          (unheld ht owner clock d
            (select (triggered ht l0_fanout fanout d) (live_partitions ht d)))
          refl h
