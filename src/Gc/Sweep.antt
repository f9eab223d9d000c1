-- ===== src/Gc/Sweep.antt =====
-- lib.rs: what `sweep` spares.
use ukiel.Base.{
  ◌≢◌, ℕ, String, Bool, not, List, [], ◌∷◌, All, All-select, Option-cases, inl, inr, elem,
  string_eq,
}
use ukiel.Catalog.Db.{Db, PendingRow}
use ukiel.Catalog.Gc.{next_orphaned_pending_object, clear_pending_objects}
use ukiel.Catalog.Gc.Authority.{next_orphaned_pending_object-All}
use ukiel.Gc.{Deletion, Round, State, clear, sweep_path, sweep_round, sweep}
use ukiel.Gc.Reap.{Deletion-cases, Turn-cases}

-- No upload intent is at `q`.
abbrev pub Unlisted : String → Db → Type 0
Unlisted q d = All (λ (r : PendingRow). r.path ≢ q) d.pending_objects

-- What other workers do in a round registers no intent at `q`.
abbrev pub NoIntent : String → Round → Type 0
NoIntent q r = (d : Db) → Unlisted q d → Unlisted q (r.others d)

module _ {ℓ κ} (S : Type ℓ) (delete_object : String → S → Deletion × S) (Holds : S → Type κ)
    (q : String)
    (spares : (path : String) (s : S) → path ≢ q → Holds s → Holds (delete_object path s).1)
    (before : String → String → Bool) where
  abbrev pub Spared : State S delete_object → Type κ
  Spared s = Unlisted q s.db × Holds s.store

  clear-Spared :
      (r : Round) (path : String) (s : State S delete_object)
      → Spared s
      → Spared (clear S delete_object before r path s).1
  unfolding clear clear_pending_objects
  clear-Spared r path s h = elim (Option-cases r.write_fault) [
    | inl e ↦
        rw (e, clear)
          (
            All-select (λ (r : PendingRow). r.path ≢ q)
                (λ (r : PendingRow). not (elem r.path (path ∷ []))) s.db.pending_objects h.0,
            h.1,
          )
    | inr (x, e) ↦ rw (e, clear) h
  ]

  sweep_path-Spared :
      (r : Round) (path : String) (s : State S delete_object)
      → path ≢ q
      → Spared s
      → Spared (sweep_path S delete_object before r path s).1
  unfolding sweep_path
  sweep_path-Spared r path s n h =
      let after : State S delete_object = record s { store = (delete_object path s.store).1 } in
      let kept : Spared after = (h.0, spares path s.store n h.1) in
      elim (Deletion-cases (delete_object path s.store).0) [
        | inl e ↦ rw (e, sweep_path) (clear-Spared r path after kept)
        | inr (inl e) ↦ rw (e, sweep_path) (clear-Spared r path after kept)
        | inr (inr (x, e)) ↦ rw (e, sweep_path) kept
      ]

  sweep_round-Spared :
      (ht grace : ℕ) (r : Round) (s : State S delete_object)
      → Spared s
      → Spared (sweep_round S delete_object before ht grace r s).1
  unfolding sweep_round
  sweep_round-Spared ht grace r s h = elim (Option-cases r.read_fault) [
    | inr (x, e) ↦ rw (e, sweep_round) h
    | inl e ↦
        rw (e, sweep_round)
          (elim (Option-cases (next_orphaned_pending_object before r.now ht grace s.db)) [
            | inl g ↦ rw g h
            | inr (path, g) ↦ rw g (
                sweep_path-Spared r path s
                  (next_orphaned_pending_object-All before (λ p. p ≢ q) r.now ht grace s.db path h.0
                    g)
                  h)
          ])
  ]

  -- However often `sweep` goes round and whatever fails: as long as no upload intent is at the path
  -- of an object, the object is spared, if a deletion by the store leaves the objects at other
  -- paths.
  pub sweep-Spared :
      (ht grace : ℕ) (rounds : List Round) (s : State S delete_object)
      → All (NoIntent q) rounds
      → Spared s
      → Spared (sweep S delete_object before ht grace rounds s).1
  unfolding sweep
  sweep-Spared ht grace [] s c h = h
  sweep-Spared ht grace (r ∷ rounds) s c h =
      let start : State S delete_object = record s { db = r.others s.db } in
      let after = sweep_round-Spared ht grace r start (c.0 s.db h.0, h.1) in
      elim (Turn-cases (sweep_round S delete_object before ht grace r start).0) [
        | inl e ↦ rw (e, sweep) (sweep-Spared ht grace rounds _ c.1 after)
        | inr (inl e) ↦ rw (e, sweep) after
        | inr (inr (x, e)) ↦ rw (e, sweep) after
      ]
