-- ===== src/Catalog/Reads/Quiet.antt =====
-- parts.rs: the two tests for a cold partition, the sweep's and the recheck's.
use ukiel.Base.{
  ◌≡◌, refl, sym, ◌∙◌, ℕ, ◌+◌, max, String, Bool, false, not, ◌&&◌, Option, none, some, List, [],
  ◌∷◌, leb, ◌==◌, nat_eq, any, find, arith, Option-cases, Bool-cases, inl, inr,
}
use ukiel.Catalog.Db.{Db, CommitRow, PartRow}
use ukiel.Catalog.Reads.{
  quiet_since, arrived, last_arrival, partition_l0_quiet_since, no_recent_arrival,
}

abbrev recent : ℕ → ℕ → ℕ → String → List CommitRow → PartRow → Bool
recent now quiet ht partition commits p =
    arrived ht partition p && elim (find (λ (c : CommitRow). c.id == p.created_by_commit) commits) [
      | none ↦ false
      | some c ↦ leb now (c.created_at + quiet)
    ]

module _ (now quiet ht : ℕ) (partition : String) (commits : List CommitRow) where
  quiet_since_later :
      (t : ℕ) (o : Option ℕ)
      → quiet_since now quiet (some (elim o [ none ↦ t | some u ↦ max t u ]))
        ≡ not (leb now (t + quiet)) && quiet_since now quiet o
  quiet_since_later t none = ground arith
  quiet_since_later t (some u) = ground arith

  same_quiet :
      (ps : List PartRow)
      → quiet_since now quiet (last_arrival ht partition commits ps)
        ≡ not (any (recent now quiet ht partition commits) ps)
  unfolding last_arrival
  same_quiet [] = refl
  same_quiet (p ∷ ps) =
      let rest = last_arrival ht partition commits ps in
      elim (Bool-cases (arrived ht partition p)) [
        | inr a ↦ rw a (same_quiet ps)
        | inl a ↦
            elim (Option-cases (find (λ (c : CommitRow). c.id == p.created_by_commit) commits)) [
              | inl e ↦ rw (a, e) (same_quiet ps)
              | inr (c, e) ↦
                  rw (a, e) (quiet_since_later c.created_at rest ∙ ground (arith, same_quiet ps))
            ]
      ]

-- The test by which the sweep leaves hot partitions out is the test that a claimed partition is
-- rechecked by.
pub no_recent_arrival-quiet :
    (now ht : ℕ) (partition : String) (quiet : ℕ) (d : Db)
    → no_recent_arrival now ht partition quiet d ≡ partition_l0_quiet_since now ht partition quiet d
unfolding no_recent_arrival partition_l0_quiet_since
no_recent_arrival-quiet now ht partition quiet d =
    sym (same_quiet now quiet ht partition d.commits d.parts)
