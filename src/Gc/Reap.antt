-- ===== src/Gc/Reap.antt =====
-- lib.rs: the objects that `reap` spares, and its end.
use ukiel.Base.{
  ◌≡◌, ◌≢◌, refl, ap, sym, subst, ◌∙◌, ℕ, ◌<◌, String, true, none, some, List, [], ◌∷◌, length,
  arith, All, All-update, Option-cases, ◌⊎◌, inl, inr, elem, nat_eq,
}
use ukiel.Core.Part.{Part}
use ukiel.Catalog.Db.{Db, PartRow}
use ukiel.Catalog.Parts.{is_live}
use ukiel.Catalog.Gc.{next_reapable_part, mark_purged}
use ukiel.Catalog.Gc.Authority.{
  waiting, next_reapable_part-row, reapable-unpurged, mark_purged-waiting,
}
use ukiel.Gc.{
  GcError, Deletion, deleted, not_found, failed, Round, returned, Turn, again, over, fault, State,
  stamp, reap_part, reap_round, reap,
}

-- Every part whose object is at `q` is live.
abbrev pub Referenced : String → Db → Type 0
Referenced q d = All (λ (p : PartRow). p.meta.path ≡ q → is_live p ≡ true) d.parts

-- What other workers do in a round leaves `q` to live parts.
abbrev pub Careful : String → Round → Type 0
Careful q r = (d : Db) → Referenced q d → Referenced q (r.others d)

mark_purged-Referenced :
    (q : String) (now : ℕ) (ids : List ℕ) (d : Db)
    → Referenced q d
    → Referenced q (mark_purged now ids d)
unfolding mark_purged
mark_purged-Referenced q now ids d =
    All-update (λ (p : PartRow). p.meta.path ≡ q → is_live p ≡ true)
      (λ (p : PartRow). elem p.id ids) (λ (p : PartRow). record p { purged_at = some now })
      (λ p h. h) d.parts

candidate-elsewhere :
    (q : String) (now ht grace : ℕ) (d : Db) (part : Part)
    → Referenced q d
    → next_reapable_part now ht grace d ≡ some part
    → part.meta.path ≢ q
candidate-elsewhere q now ht grace d part h e same =
    let (p, row, safe, may) =
      next_reapable_part-row (λ (p : PartRow). p.meta.path ≡ q → is_live p ≡ true) now ht grace d
        part h e in
    let dead = (reapable-unpurged now ht grace d p may).1 in
    cc (dead, safe (ap (λ (x : Part). x.meta.path) (sym row) ∙ same))

pub Deletion-cases :
    (o : Deletion) → (o ≡ deleted) ⊎ ((o ≡ not_found) ⊎ ((e : String) × (o ≡ failed e)))
Deletion-cases deleted = inl refl
Deletion-cases not_found = inr (inl refl)
Deletion-cases (failed e) = inr (inr (e, refl))

pub Turn-cases : (t : Turn) → (t ≡ again) ⊎ ((t ≡ over) ⊎ ((e : GcError) × (t ≡ fault e)))
Turn-cases again = inl refl
Turn-cases over = inr (inl refl)
Turn-cases (fault e) = inr (inr (e, refl))

module _ {ℓ κ} (S : Type ℓ) (delete_object : String → S → Deletion × S) (Holds : S → Type κ)
    (q : String)
    (spares : (path : String) (s : S) → path ≢ q → Holds s → Holds (delete_object path s).1) where
  abbrev pub Safe : State S delete_object → Type κ
  Safe s = Referenced q s.db × Holds s.store

  stamp-Safe :
      (r : Round) (id : ℕ) (s : State S delete_object)
      → Safe s
      → Safe (stamp S delete_object r id s).1
  unfolding stamp
  stamp-Safe r id s h = elim (Option-cases r.write_fault) [
    | inl e ↦ rw (e, stamp) (mark_purged-Referenced q r.now (id ∷ []) s.db h.0, h.1)
    | inr (x, e) ↦ rw (e, stamp) h
  ]

  reap_part-Safe :
      (r : Round) (part : Part) (s : State S delete_object)
      → part.meta.path ≢ q
      → Safe s
      → Safe (reap_part S delete_object r part s).1
  unfolding reap_part
  reap_part-Safe r part s n h =
      let after : State S delete_object = record s {
        store = (delete_object part.meta.path s.store).1;
      } in
      let kept : Safe after = (h.0, spares part.meta.path s.store n h.1) in
      elim (Deletion-cases (delete_object part.meta.path s.store).0) [
        | inl e ↦ rw (e, reap_part) (stamp-Safe r part.id after kept)
        | inr (inl e) ↦ rw (e, reap_part) (stamp-Safe r part.id after kept)
        | inr (inr (x, e)) ↦ rw (e, reap_part) kept
      ]

  reap_round-Safe :
      (ht grace : ℕ) (r : Round) (s : State S delete_object)
      → Safe s
      → Safe (reap_round S delete_object ht grace r s).1
  unfolding reap_round
  reap_round-Safe ht grace r s h = elim (Option-cases r.read_fault) [
    | inr (x, e) ↦ rw (e, reap_round) h
    | inl e ↦
        rw (e, reap_round)
          (elim (Option-cases (next_reapable_part r.now ht grace s.db)) [
            | inl g ↦ rw g h
            | inr (part, g) ↦
                rw g
                  (reap_part-Safe r part s (candidate-elsewhere q r.now ht grace s.db part h.0 g) h)
          ])
  ]

  -- However often `reap` goes round, whatever fails and whatever other workers commit meanwhile: as
  -- long as the path of an object is only that of live parts, the object is spared, and the parts
  -- there stay live, if a deletion by the store leaves the objects at other paths.
  pub reap-Safe :
      (ht grace : ℕ) (rounds : List Round) (s : State S delete_object)
      → All (Careful q) rounds
      → Safe s
      → Safe (reap S delete_object ht grace rounds s).1
  unfolding reap
  reap-Safe ht grace [] s c h = h
  reap-Safe ht grace (r ∷ rounds) s c h =
      let start : State S delete_object = record s { db = r.others s.db } in
      let after = reap_round-Safe ht grace r start (c.0 s.db h.0, h.1) in
      elim (Turn-cases (reap_round S delete_object ht grace r start).0) [
        | inl e ↦ rw (e, reap) (reap-Safe ht grace rounds _ c.1 after)
        | inr (inl e) ↦ rw (e, reap) after
        | inr (inr (x, e)) ↦ rw (e, reap) after
      ]

-- A round at `now` in which no one else commits and no call fails.
pub record Quiet (now : ℕ) (r : Round) : Type 0 where
  pub at : r.now ≡ now
  pub alone : (d : Db) → r.others d ≡ d
  pub reads : r.read_fault ≡ none
  pub writes : r.write_fault ≡ none

module _ {ℓ} (S : Type ℓ) (delete_object : String → S → Deletion × S)
    (works : (path : String) (s : S) (e : String) → (delete_object path s).0 ≢ failed e) where
  stamped_part :
      (ht grace : ℕ) (r : Round) (part : Part) (s : State S delete_object)
      → Quiet r.now r
      → next_reapable_part r.now ht grace s.db ≡ some part
      → ((reap_part S delete_object r part s).0 ≡ again)
        × (waiting (reap_part S delete_object r part s).1.db < waiting s.db)
  unfolding reap_part stamp
  stamped_part ht grace r part s quiet h =
      let less = mark_purged-waiting r.now ht grace s.db part h in
      elim (Deletion-cases (delete_object part.meta.path s.store).0) [
        | inl e ↦ rw (e, reap_part) (rw quiet.writes (refl, less))
        | inr (inl e) ↦ rw (e, reap_part) (rw quiet.writes (refl, less))
        | inr (inr (x, e)) ↦ absurd (works part.meta.path s.store x e)
      ]

  last_round :
      (ht grace : ℕ) (r : Round) (s : State S delete_object)
      → r.read_fault ≡ none
      → next_reapable_part r.now ht grace s.db ≡ none
      → reap_round S delete_object ht grace r s ≡ (over, s)
  unfolding reap_round
  last_round ht grace r s e g = rw (e, reap_round) (rw g refl)

  part_round :
      (ht grace : ℕ) (r : Round) (part : Part) (s : State S delete_object)
      → r.read_fault ≡ none
      → next_reapable_part r.now ht grace s.db ≡ some part
      → reap_round S delete_object ht grace r s ≡ reap_part S delete_object r part s
  unfolding reap_round reap_part stamp
  part_round ht grace r part s e g = rw (e, reap_round) (rw g refl)

  reap_round-Quiet :
      (ht grace now : ℕ) (r : Round) (s : State S delete_object)
      → Quiet now r
      → let run = reap_round S delete_object ht grace r (record s { db = r.others s.db }) in
        ((run.0 ≡ over) × (next_reapable_part now ht grace run.1.db ≡ none))
        ⊎ ((run.0 ≡ again) × (waiting run.1.db < waiting s.db))
  reap_round-Quiet ht grace now r s quiet =
      let start : State S delete_object = record s { db = r.others s.db } in
      let same = quiet.alone s.db in
      elim (Option-cases (next_reapable_part r.now ht grace start.db)) [
        | inl g ↦
            rw (last_round ht grace r start quiet.reads g)
              (inl (refl, subst (λ n. next_reapable_part n ht grace start.db ≡ none) quiet.at g))
        | inr (part, g) ↦
            let (turn, less) =
              stamped_part ht grace r part start
                (record {
                  at = refl;
                  alone = quiet.alone;
                  reads = quiet.reads;
                  writes = quiet.writes;
                })
                g in
            rw (part_round ht grace r part start quiet.reads g) (
              inr (
                turn,
                subst (λ d. waiting (reap_part S delete_object r part start).1.db < waiting d) same
                    less,
              ))
      ]

  -- Where no one else commits, no call fails and the clock stands, `reap` returns within as many
  -- rounds as there are parts that are not purged, and one more, and leaves no part to reap.
  pub reap-returned :
      (ht grace now : ℕ) (rounds : List Round) (s : State S delete_object)
      → All (Quiet now) rounds
      → waiting s.db < length rounds
      → let run = reap S delete_object ht grace rounds s in
        (run.0 ≡ returned) × (next_reapable_part now ht grace run.1.db ≡ none)
  unfolding reap
  reap-returned ht grace now [] s q h = absurd (omega (arith, h))
  reap-returned ht grace now (r ∷ rounds) s q h = elim (reap_round-Quiet ht grace now r s q.0) [
    | inl (e, done) ↦ rw (e, reap) (refl, done)
    | inr (e, less) ↦
        rw (e, reap) (reap-returned ht grace now rounds _ q.1 (omega (arith, h, less)))
  ]
