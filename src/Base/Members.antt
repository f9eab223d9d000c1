-- ===== src/Base/Members.antt =====
-- The rows that a query returns, as members of a list.
use Prim.Native.Nat.{ℕ}
use mathlib.Core.Path.{◌≡◌, refl, subst, sym, ap, ◌∙◌}
use mathlib.Core.Bool.{Bool, true}
use mathlib.Core.Logic.{inl, inr}
use mathlib.Core.List.{List, [], ◌∷◌, Memᴰ}
use ukiel.Base.Tests.{leb, Bool-cases}
use ukiel.Base.Lists.{select, All}
use ukiel.Base.Order.{insert_by, order_by}

module _ {ℓ} {A : Type ℓ} where
  pub All-Mem {κ} : (P : A → Type κ) (xs : List A) (x : A) → All P xs → Memᴰ x xs → P x
  All-Mem P [] x a m = elim m [ ]
  All-Mem P (y ∷ ys) x a (Memᴰ.head e) = subst P (sym e) a.0
  All-Mem P (y ∷ ys) x a (Memᴰ.tail m) = All-Mem P ys x a.1 m

  pub select-Mem :
      (p : A → Bool) (xs : List A) (x : A) → p x ≡ true → Memᴰ x xs → Memᴰ x (select p xs)
  select-Mem p [] x h m = elim m [ ]
  select-Mem p (y ∷ ys) x h (Memᴰ.head e) = rw (ap p (sym e) ∙ h) (Memᴰ.head e)
  select-Mem p (y ∷ ys) x h (Memᴰ.tail m) = elim (Bool-cases (p y)) [
    | inl e ↦ rw e (Memᴰ.tail (select-Mem p ys x h m))
    | inr e ↦ rw e (select-Mem p ys x h m)
  ]

  insert_by-head : (key : A → ℕ) (x : A) (xs : List A) → Memᴰ x (insert_by key x xs)
  insert_by-head key x [] = Memᴰ.head refl
  insert_by-head key x (y ∷ ys) = elim (Bool-cases (leb (key x) (key y))) [
    | inl e ↦ rw e (Memᴰ.head refl)
    | inr e ↦ rw e (Memᴰ.tail (insert_by-head key x ys))
  ]

  insert_by-Mem : (key : A → ℕ) (x y : A) (xs : List A) → Memᴰ x xs → Memᴰ x (insert_by key y xs)
  insert_by-Mem key x y [] m = elim m [ ]
  insert_by-Mem key x y (z ∷ zs) m = elim (Bool-cases (leb (key y) (key z))) [
    | inl e ↦ rw e (Memᴰ.tail m)
    | inr e ↦ rw e (elim m [
      | Memᴰ.head g ↦ Memᴰ.head g
      | Memᴰ.tail n ↦ Memᴰ.tail (insert_by-Mem key x y zs n)
    ])
  ]

  pub order_by-Mem : (key : A → ℕ) (xs : List A) (x : A) → Memᴰ x xs → Memᴰ x (order_by key xs)
  order_by-Mem key [] x m = elim m [ ]
  order_by-Mem key (y ∷ ys) x (Memᴰ.head e) =
      subst (λ z. Memᴰ z (insert_by key y (order_by key ys))) (sym e)
        (insert_by-head key y (order_by key ys))
  order_by-Mem key (y ∷ ys) x (Memᴰ.tail m) =
      insert_by-Mem key x y (order_by key ys) (order_by-Mem key ys x m)
