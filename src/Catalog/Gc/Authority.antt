-- ===== src/Catalog/Gc/Authority.antt =====
-- gc.rs: what is true of the candidate that the catalog hands out.
use ukiel.Base.{
  ◌≡◌, refl, ap, subst, ℕ, ◌≤◌, ◌<◌, String, Bool, true, false, ◌&&◌, some, List, [], ◌∷◌, map,
  ◌==◌, nat_eq, any, select, update, elem, length, arith, All, All-select, select-passes,
  Option-cases, Bool-cases, inl, inr,
}
use ukiel.Base.Order.{order_by, order_by-All}
use ukiel.Core.Part.{Part}
use ukiel.Catalog.Db.{Db, PartRow, PendingRow, to_part}
use ukiel.Catalog.Parts.{is_live}
use ukiel.Catalog.Feed.{part_key}
use ukiel.Catalog.Gc.{
  first, reapable, unpurged, next_reapable_part, mark_purged, insert_path, order_paths, orphaned,
  orphaned_pending_objects, next_orphaned_pending_object,
}

All-both {ℓ κ μ} :
    {A : Type ℓ} (P : A → Type κ) (Q : A → Type μ) (xs : List A)
    → All P xs
    → All Q xs
    → All (λ x. P x × Q x) xs
All-both P Q [] a b = tt
All-both P Q (x ∷ xs) a b = ((a.0, b.0), All-both P Q xs a.1 b.1)

first-All {ℓ κ} :
    {A : Type ℓ} (P : A → Type κ) (xs : List A) → All P xs → (x : A) → first xs ≡ some x → P x
first-All P [] a x h = cc
first-All P (y ∷ ys) a x h = let e : y ≡ x = cc h in subst P e a.0

-- The candidate is a row of the table that may be reaped, and has whatever all rows have.
pub next_reapable_part-row {κ} :
    (P : PartRow → Type κ) (now ht grace : ℕ) (d : Db) (part : Part)
    → All P d.parts
    → next_reapable_part now ht grace d ≡ some part
    → (p : PartRow) × (part ≡ to_part p) × P p × (reapable now ht grace d p ≡ true)
unfolding next_reapable_part
next_reapable_part-row P now ht grace d part a h =
    let rows = order_by part_key (select (reapable now ht grace d) d.parts) in
    elim (Option-cases (first rows)) [
      | inl e ↦ cc (rw e at h)
      | inr (p, e) ↦
          let (has, may) =
            first-All (λ p. P p × (reapable now ht grace d p ≡ true)) rows
              (order_by-All part_key _ (select (reapable now ht grace d) d.parts) (
                All-both _ _ (select (reapable now ht grace d) d.parts)
                  (All-select P (reapable now ht grace d) d.parts a)
                  (select-passes (reapable now ht grace d) d.parts)))
              p e in
          (p, cc (rw e at h), has, may)
    ]

abbrev pub waiting : Db → ℕ
waiting d = length (select unpurged d.parts)

abbrev stamped : ℕ → ℕ → List PartRow → List PartRow
stamped now id =
    update (λ (p : PartRow). elem p.id (id ∷ []))
      (λ (p : PartRow). record p { purged_at = some now })

stamped-le :
    (now id : ℕ) (rows : List PartRow)
    → length (select unpurged (stamped now id rows)) ≤ length (select unpurged rows)
stamped-le now id [] = omega arith
stamped-le now id (p ∷ rows) = ground (arith, stamped-le now id rows)

-- A stamp on a row that was not purged leaves one row less to purge.
stamped-lt :
    (now id : ℕ) (rows : List PartRow)
    → any (λ (p : PartRow). p.id == id && unpurged p) rows ≡ true
    → length (select unpurged (stamped now id rows)) < length (select unpurged rows)
stamped-lt now id [] h = cc
stamped-lt now id (p ∷ rows) h = ground (arith, stamped-lt now id rows, stamped-le now id rows)

none-All : {A : Type 0} (p : A → Bool) (xs : List A) → any p xs ≡ false → All (λ x. p x ≡ false) xs
none-All p [] h = tt
none-All p (x ∷ xs) h = ground (arith, none-All p xs)

pub reapable-unpurged :
    (now ht grace : ℕ) (d : Db) (p : PartRow)
    → reapable now ht grace d p ≡ true
    → (unpurged p ≡ true) × (is_live p ≡ false)
unfolding reapable
reapable-unpurged now ht grace d p h = elim (Option-cases p.deleted_by_commit) [
  | inl e ↦ cc (rw e at h)
  | inr (c, e) ↦ (ground (arith, rw e at h), rw e refl)
]

-- A stamp of the candidate leaves one part less to purge.
pub mark_purged-waiting :
    (now ht grace : ℕ) (d : Db) (part : Part)
    → next_reapable_part now ht grace d ≡ some part
    → waiting (mark_purged now (part.id ∷ []) d) < waiting d
unfolding mark_purged
mark_purged-waiting now ht grace d part h =
    elim (Bool-cases (any (λ (p : PartRow). p.id == part.id && unpurged p) d.parts)) [
      | inl e ↦ stamped-lt now part.id d.parts e
      | inr e ↦
          let (p, same, other, may) =
            next_reapable_part-row (λ (p : PartRow). (p.id == part.id && unpurged p) ≡ false) now ht
              grace d part (none-All _ d.parts e) h in
          let (left, _) = reapable-unpurged now ht grace d p may in
          absurd (ground (arith, ap (λ (x : Part). x.id) same))
    ]

module _ (before : String → String → Bool) where
  insert_path-All :
      (P : String → Type 0) (x : String) (xs : List String)
      → P x
      → All P xs
      → All P (insert_path before x xs)
  insert_path-All P x [] p a = (p, tt)
  insert_path-All P x (y ∷ ys) p a = elim (Bool-cases (before x y)) [
    | inl e ↦ rw e (p, a)
    | inr e ↦ rw e (a.0, insert_path-All P x ys p a.1)
  ]

  order_paths-All :
      (P : String → Type 0) (xs : List String) → All P xs → All P (order_paths before xs)
  order_paths-All P [] a = tt
  order_paths-All P (x ∷ xs) a =
      insert_path-All P x (order_paths before xs) a.0 (order_paths-All P xs a.1)

  map-All :
      (P : String → Type 0) (rows : List PendingRow)
      → All (λ (r : PendingRow). P r.path) rows
      → All P (map (λ (r : PendingRow). r.path) rows)
  map-All P [] a = tt
  map-All P (r ∷ rows) a = (a.0, map-All P rows a.1)

  -- The path that is handed out has whatever all intents' paths have.
  pub next_orphaned_pending_object-All :
      (P : String → Type 0) (now ht grace : ℕ) (d : Db) (path : String)
      → All (λ (r : PendingRow). P r.path) d.pending_objects
      → next_orphaned_pending_object before now ht grace d ≡ some path
      → P path
  unfolding next_orphaned_pending_object orphaned_pending_objects
  next_orphaned_pending_object-All P now ht grace d path a h =
      first-All P _
        (order_paths-All P _ (
          map-All P (select (orphaned now ht grace) d.pending_objects) (
            All-select (λ (r : PendingRow). P r.path) (orphaned now ht grace) d.pending_objects a)))
        path h
