-- ===== src/Base/Order.antt =====
-- `ORDER BY` a number, and the lists that are in that order already.
use Prim.Native.Nat.{ℕ, ◌≤◌, ◌<◌, zero, suc}
use mathlib.Core.Path.{◌≡◌, refl}
use mathlib.Core.Bool.{Bool}
use mathlib.Core.Logic.{inl, inr}
use mathlib.Core.List.{List, [], ◌∷◌, ◌++◌}
use native.Mathlib.Omega.{arith}
use ukiel.Base.Tests.{leb, ltb, if◌then◌else◌, Bool-cases}
use ukiel.Base.Lists.{update, All, All-imp, All-update, All-select, All-append, select, take, drop}

module _ {ℓ} {A : Type ℓ} (key : A → ℕ) where
  abbrev pub insert_by : A → List A → List A
  insert_by x [] = x ∷ []
  insert_by x (y ∷ ys) = if leb (key x) (key y) then x ∷ y ∷ ys else y ∷ insert_by x ys

  abbrev pub order_by : List A → List A
  order_by [] = []
  order_by (x ∷ xs) = insert_by x (order_by xs)

  -- Strictly increasing keys.
  abbrev pub Increasing : List A → Type ℓ
  Increasing [] = Unit
  Increasing (x ∷ xs) = All (λ y. key x < key y) xs × Increasing xs

  insert_by-least : (x : A) (xs : List A) → All (λ y. key x < key y) xs → insert_by x xs ≡ x ∷ xs
  insert_by-least x [] a = refl
  insert_by-least x (y ∷ ys) a = ground (arith, a.0)

  pub order_by-Increasing : (xs : List A) → Increasing xs → order_by xs ≡ xs
  order_by-Increasing [] s = refl
  order_by-Increasing (x ∷ xs) s = rw (order_by-Increasing xs s.1) (insert_by-least x xs s.0)

  pub select-Increasing : (p : A → Bool) (xs : List A) → Increasing xs → Increasing (select p xs)
  select-Increasing p [] s = tt
  select-Increasing p (x ∷ xs) s =
      ground (arith, All-select (λ y. key x < key y) p xs s.0, select-Increasing p xs s.1)

  pub append_one-Increasing :
      (xs : List A) (x : A)
      → Increasing xs
      → All (λ y. key y < key x) xs
      → Increasing (xs ++ x ∷ [])
  append_one-Increasing [] x s a = (tt, tt)
  append_one-Increasing (y ∷ ys) x s a = (
    All-append (λ z. key y < key z) ys (x ∷ []) s.0 (a.0, tt),
    append_one-Increasing ys x s.1 a.1,
  )

  -- The keys above that of the last row taken are the rows left.
  select_above-All :
      (lo : ℕ) (xs : List A) → All (λ y. lo < key y) xs → select (λ y. ltb lo (key y)) xs ≡ xs
  select_above-All lo [] a = refl
  select_above-All lo (x ∷ xs) a = ground (arith, a.0, select_above-All lo xs a.1)

  abbrev pub last_key : ℕ → List A → ℕ
  last_key d [] = d
  last_key d (x ∷ xs) = last_key (key x) xs

  last_key-le : (xs : List A) (d : ℕ) → Increasing xs → All (λ y. d < key y) xs → d ≤ last_key d xs
  last_key-le [] d s a = omega arith
  last_key-le (x ∷ xs) d s a = omega (arith, last_key-le xs (key x) s.1 s.0, a.0)

  take-All {κ} : (P : A → Type κ) (n : ℕ) (xs : List A) → All P xs → All P (take n xs)
  take-All P zero xs a = tt
  take-All P (suc n) [] a = tt
  take-All P (suc n) (y ∷ ys) a = (a.0, take-All P n ys a.1)

  take-Increasing : (n : ℕ) (xs : List A) → Increasing xs → Increasing (take n xs)
  take-Increasing zero xs s = tt
  take-Increasing (suc n) [] s = tt
  take-Increasing (suc n) (y ∷ ys) s =
      (take-All (λ z. key y < key z) n ys s.0, take-Increasing n ys s.1)

  pub select-above_last :
      (n lo : ℕ) (xs : List A)
      → Increasing xs
      → All (λ y. lo < key y) xs
      → select (λ y. ltb (last_key lo (take n xs)) (key y)) xs ≡ drop n xs
  select-above_last zero lo xs s a = select_above-All lo xs a
  select-above_last (suc n) lo [] s a = refl
  select-above_last (suc n) lo (x ∷ xs) s a = ground (
    arith,
    select-above_last n (key x) xs s.1 s.0,
    last_key-le (take n xs) (key x) (take-Increasing n xs s.1)
        (take-All (λ y. key x < key y) n xs s.0),
  )

  -- Lists that are in order on either side of a bound are in order one after the other.
  pub append-Increasing :
      (bound : ℕ) (xs ys : List A)
      → Increasing xs
      → All (λ y. key y < bound) xs
      → Increasing ys
      → All (λ y. bound ≤ key y) ys
      → Increasing (xs ++ ys)
  append-Increasing bound [] ys s a t b = t
  append-Increasing bound (x ∷ xs) ys s a t b = (
    All-append (λ y. key x < key y) xs ys s.0 (All-imp (λ y h. omega (arith, h, a.0)) ys b),
    append-Increasing bound xs ys s.1 a.1 t b,
  )

  -- A change of a row that leaves its key leaves the order.
  pub update-Increasing :
      (p : A → Bool) (f : A → A)
      → ((y : A) → key (f y) ≡ key y)
      → (xs : List A) → Increasing xs
      → Increasing (update p f xs)
  update-Increasing p f h [] s = tt
  update-Increasing p f h (x ∷ xs) s =
      let rest = update-Increasing p f h xs s.1 in
      let above = All-update (λ y. key x < key y) p f (λ y g. omega (arith, h y, g)) xs s.0 in
      elim (Bool-cases (p x)) [
        | inl e ↦ rw e (All-imp (λ y g. omega (arith, h x, g)) (update p f xs) above, rest)
        | inr e ↦ rw e (above, rest)
      ]

  insert_by-All {κ} :
      (P : A → Type κ) (x : A) (xs : List A) → P x → All P xs → All P (insert_by x xs)
  insert_by-All P x [] p a = (p, tt)
  insert_by-All P x (y ∷ ys) p a = elim (Bool-cases (leb (key x) (key y))) [
    | inl e ↦ rw e (p, a)
    | inr e ↦ rw e (a.0, insert_by-All P x ys p a.1)
  ]

  pub order_by-All {κ} : (P : A → Type κ) (xs : List A) → All P xs → All P (order_by xs)
  order_by-All P [] a = tt
  order_by-All P (x ∷ xs) a = insert_by-All P x (order_by xs) a.0 (order_by-All P xs a.1)
