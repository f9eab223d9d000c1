-- ===== src/Catalog/Pipelines/Reachable.antt =====
-- The recursive query of pipelines.rs: the set that it ends with.
use mathlib.Core.List.{Memᴰ}
use ukiel.Base.{
  ℕ, zero, suc, ◌+◌, ◌≤◌, List, [], ◌∷◌, ◌++◌, length, elem, true, nat_eq, if◌then◌else◌, ◌≡◌, ◌⊎◌,
  inl, inr, refl, sym, ap, ◌∙◌, arith, Bool-cases,
}
use ukiel.Catalog.Pipelines.{targets_from, closed, reachable}

-- A path of one edge or more.
pub data Reach (es : List (ℕ × ℕ)) : ℕ → ℕ → Type 0 where
  edge : {a b : ℕ} → Memᴰ (a, b) es → Reach es a b
  then : {a b c : ℕ} → Memᴰ (a, b) es → Reach es b c → Reach es a c

elem-append_right :
    (x : ℕ) (front seen : List ℕ) → elem x seen ≡ true → elem x (front ++ seen) ≡ true
elem-append_right x [] seen h = h
elem-append_right x (y ∷ front) seen h = ground (arith, elem-append_right x front seen)

elem-targets :
    (es : List (ℕ × ℕ)) (seen rest : List ℕ) (s t : ℕ)
    → Memᴰ (s, t) es
    → elem s seen ≡ true
    → elem t (targets_from seen es ++ rest) ≡ true
elem-targets [] seen rest s t m h = elim m [ ]
elem-targets ((a, b) ∷ es) seen rest s t (Memᴰ.head e) h =
    let from : elem a seen ≡ true = ap (λ p. elem p.0 seen) (sym e) ∙ h in
    rw from (ground (arith, ap (λ p. p.1) e))
elem-targets ((a, b) ∷ es) seen rest s t (Memᴰ.tail m) h =
    ground (arith, elem-targets es seen rest s t m h)

-- The edges that end in the set.
abbrev count_in : List ℕ → List (ℕ × ℕ) → ℕ
count_in seen [] = 0
count_in seen ((s, t) ∷ es) = (if elem t seen then 1 else 0) + count_in seen es

count_full :
    (seen : List ℕ) (es : List (ℕ × ℕ)) → length es ≤ count_in seen es → closed seen es ≡ true
count_full seen [] h = refl
count_full seen ((s, t) ∷ es) h = ground (arith, count_full seen es, count_in-length es)
  where
    count_in-length : (fs : List (ℕ × ℕ)) → count_in seen fs ≤ length fs
    count_in-length [] = omega arith
    count_in-length ((a, b) ∷ fs) = ground (arith, count_in-length fs)

module _ (seen more : List ℕ) (kept : (t : ℕ) → elem t seen ≡ true → elem t more ≡ true) where
  count_grows :
      (fs : List (ℕ × ℕ))
      → ((s t : ℕ) → Memᴰ (s, t) fs → elem s seen ≡ true → elem t more ≡ true)
      → (count_in seen fs ≤ count_in more fs)
        × ((closed seen fs ≡ true) ⊎ (suc (count_in seen fs) ≤ count_in more fs))
  count_grows [] reached = (omega arith, inl refl)
  count_grows ((s, t) ∷ fs) reached = ground (
    arith,
    count_grows fs (λ a b m. reached a b (Memᴰ.tail m)),
    reached s t (Memᴰ.head refl),
    kept t,
  )

reachable-closed :
    (rounds : ℕ) (es : List (ℕ × ℕ)) (seen : List ℕ)
    → length es ≤ rounds + count_in seen es
    → closed (reachable rounds es seen) es ≡ true
reachable-closed zero es seen h = count_full seen es (omega (arith, h))
reachable-closed (suc rounds) es seen h = elim (Bool-cases (closed seen es)) [
  | inl e ↦ rw e e
  | inr e ↦ rw e (
      reachable-closed rounds es (targets_from seen es ++ seen) (
        ground (
          arith,
          h,
          e,
          count_grows seen (targets_from seen es ++ seen)
              (λ t. elem-append_right t (targets_from seen es) seen) es
              (λ s t. elem-targets es seen seen s t),
        )))
]

reachable-start :
    (rounds : ℕ) (es : List (ℕ × ℕ)) (seen : List ℕ) (x : ℕ)
    → elem x seen ≡ true
    → elem x (reachable rounds es seen) ≡ true
reachable-start zero es seen x h = h
reachable-start (suc rounds) es seen x h = elim (Bool-cases (closed seen es)) [
  | inl e ↦ rw e h
  | inr e ↦ rw e (
      reachable-start rounds es (targets_from seen es ++ seen) x
        (elem-append_right x (targets_from seen es) seen h))
]

closed-edge :
    (seen : List ℕ) (es : List (ℕ × ℕ)) (s t : ℕ)
    → closed seen es ≡ true
    → Memᴰ (s, t) es
    → elem s seen ≡ true
    → elem t seen ≡ true
closed-edge seen [] s t c m h = elim m [ ]
closed-edge seen ((a, b) ∷ es) s t c (Memᴰ.head e) h =
    ground (arith, c, h, ap (λ p. elem p.0 seen) e, ap (λ p. elem p.1 seen) e)
closed-edge seen ((a, b) ∷ es) s t c (Memᴰ.tail m) h = closed-edge seen es s t (ground arith) m h

closed-Reach :
    (seen : List ℕ) (es : List (ℕ × ℕ)) (a b : ℕ)
    → closed seen es ≡ true
    → Reach es a b
    → elem a seen ≡ true
    → elem b seen ≡ true
closed-Reach seen es a b c (Reach.edge m) h = closed-edge seen es a b c m h
closed-Reach seen es a b c (Reach.then {b = x} m r) h =
    closed-Reach seen es x b c r (closed-edge seen es a x c m h)

-- Everything that a path leads to is in the set, if there are as many rounds as edges.
pub reachable_complete :
    (es : List (ℕ × ℕ)) (a b : ℕ)
    → (a ≡ b) ⊎ Reach es a b
    → elem b (reachable (length es) es (a ∷ [])) ≡ true
reachable_complete es a b (inl same) =
    reachable-start (length es) es (a ∷ []) b (ground (arith, same))
reachable_complete es a b (inr r) =
    closed-Reach (reachable (length es) es (a ∷ [])) es a b
      (reachable-closed (length es) es (a ∷ []) (omega arith)) r
      (reachable-start (length es) es (a ∷ []) a (ground arith))
