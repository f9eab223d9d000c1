-- ===== src/Base/Sort.antt =====
-- What `Ord` promises of a type whose values the code sorts, and the sort.
use Prim.Native.Nat.{ℕ}
use mathlib.Core.Path.{◌≡◌, refl, ap, ap₂, ◌∙◌}
use mathlib.Core.Bool.{Bool, true, false}
use mathlib.Core.Logic.{inl, inr}
use mathlib.Core.List.{List, [], ◌∷◌, Permᴰ}
use native.Mathlib.Omega.{arith}
use ukiel.Base.Tests.{leb, if◌then◌else◌, Bool-cases}
use ukiel.Base.Int.{ℤ, pos, negsuc, leℤ}
use ukiel.Base.Lists.{All, All-imp}

pub record Order {ℓ} (A : Type ℓ) : Type ℓ where
  pub le : A → A → Bool
  pub total : (x y : A) → le x y ≡ false → le y x ≡ true
  pub trans : (x y z : A) → le x y ≡ true → le y z ≡ true → le x z ≡ true
  pub antisym : (x y : A) → le x y ≡ true → le y x ≡ true → x ≡ y

pub leb-total : (x y : ℕ) → leb x y ≡ false → leb y x ≡ true
leb-total x y h = ground arith

pub leb_trans : (x y z : ℕ) → leb x y ≡ true → leb y z ≡ true → leb x z ≡ true
leb_trans x y z h g = ground arith

pub leb-antisym : (x y : ℕ) → leb x y ≡ true → leb y x ≡ true → x ≡ y
leb-antisym x y h g = ground arith

instance abbrev pub nat_order : Order ℕ
nat_order = record { le = leb; total = leb-total; trans = leb_trans; antisym = leb-antisym }

pub leℤ-total : (x y : ℤ) → leℤ x y ≡ false → leℤ y x ≡ true
leℤ-total x y h = ground arith

pub leℤ-trans : (x y z : ℤ) → leℤ x y ≡ true → leℤ y z ≡ true → leℤ x z ≡ true
leℤ-trans x y z h g = ground arith

pub leℤ-antisym : (x y : ℤ) → leℤ x y ≡ true → leℤ y x ≡ true → x ≡ y
leℤ-antisym (pos m) (pos n) h g = ap pos (ground arith)
leℤ-antisym (pos m) (negsuc n) h g = ground arith
leℤ-antisym (negsuc m) (pos n) h g = ground arith
leℤ-antisym (negsuc m) (negsuc n) h g = ap negsuc (ground arith)

-- One lexicographic step.
abbrev pub lex : Bool → Bool → Bool → Bool
lex true true rest = rest
lex true false rest = true
lex false back rest = false

module _ {ℓ} {A : Type ℓ} ⦃o : Order A⦄ where
  abbrev pub le_list : List A → List A → Bool
  le_list [] ys = true
  le_list (x ∷ xs) [] = false
  le_list (x ∷ xs) (y ∷ ys) = lex (o.le x y) (o.le y x) (le_list xs ys)

  abbrev pub insert : A → List A → List A
  insert x [] = x ∷ []
  insert x (y ∷ ys) = let rest = insert x ys in if o.le x y then x ∷ y ∷ ys else y ∷ rest

  -- `sort`, `sort_unstable`: of values that the order tells apart, the two are one.
  abbrev pub sort : List A → List A
  sort [] = []
  sort (x ∷ xs) = insert x (sort xs)

  insert_comm : (x y : A) (s : List A) → insert x (insert y s) ≡ insert y (insert x s)
  insert_comm x y [] = ground (arith, o.antisym x y, o.total x y)
  insert_comm x y (z ∷ s) =
      ground (arith, o.antisym x y, o.total x y, o.trans x y z, o.trans y x z, insert_comm x y s)

  pub sort-Permᴰ : {xs ys : List A} → Permᴰ xs ys → sort xs ≡ sort ys
  sort-Permᴰ Permᴰ.nil = refl
  sort-Permᴰ (Permᴰ.cons e p) = ap₂ insert e (sort-Permᴰ p)
  sort-Permᴰ (Permᴰ.swap {a} {b} {l = l} e f) =
      insert_comm a b (sort l) ∙ ap₂ (λ u v. insert u (insert v (sort l))) f e
  sort-Permᴰ (Permᴰ.trans p q) = sort-Permᴰ p ∙ sort-Permᴰ q

  abbrev pub Sorted : List A → Type ℓ
  Sorted [] = Unit
  Sorted (x ∷ xs) = All (λ y. o.le x y ≡ true) xs × Sorted xs

  pub insert-All {κ} : (P : A → Type κ) (x : A) (xs : List A) → P x → All P xs → All P (insert x xs)
  insert-All P x [] p a = (p, tt)
  insert-All P x (y ∷ ys) p a = elim (Bool-cases (o.le x y)) [
    | inl e ↦ rw e (p, a)
    | inr e ↦ rw e (a.0, insert-All P x ys p a.1)
  ]

  pub sort-All {κ} : (P : A → Type κ) (xs : List A) → All P xs → All P (sort xs)
  sort-All P [] a = tt
  sort-All P (x ∷ xs) a = insert-All P x (sort xs) a.0 (sort-All P xs a.1)

  insert-Sorted : (x : A) (xs : List A) → Sorted xs → Sorted (insert x xs)
  insert-Sorted x [] s = (tt, tt)
  insert-Sorted x (y ∷ ys) s = elim (Bool-cases (o.le x y)) [
    | inl e ↦ rw e ((e, All-imp (λ z h. o.trans x y z e h) ys s.0), s)
    | inr e ↦
        rw e (insert-All (λ z. o.le y z ≡ true) x ys (o.total x y e) s.0, insert-Sorted x ys s.1)
  ]

  pub sort-Sorted : (xs : List A) → Sorted (sort xs)
  sort-Sorted [] = tt
  sort-Sorted (x ∷ xs) = insert-Sorted x (sort xs) (sort-Sorted xs)

  pub le_list-total : (xs ys : List A) → le_list xs ys ≡ false → le_list ys xs ≡ true
  le_list-total [] ys h = ground arith
  le_list-total (x ∷ xs) [] h = refl
  le_list-total (x ∷ xs) (y ∷ ys) h = ground (arith, o.total x y, le_list-total xs ys)

  pub le_list-antisym : (xs ys : List A) → le_list xs ys ≡ true → le_list ys xs ≡ true → xs ≡ ys
  le_list-antisym [] [] h g = refl
  le_list-antisym [] (y ∷ ys) h g = ground arith
  le_list-antisym (x ∷ xs) [] h g = ground arith
  le_list-antisym (x ∷ xs) (y ∷ ys) h g = ground (arith, o.antisym x y, le_list-antisym xs ys)

  pub le_list_trans :
      (xs ys zs : List A) → le_list xs ys ≡ true → le_list ys zs ≡ true → le_list xs zs ≡ true
  le_list_trans [] ys zs h g = refl
  le_list_trans (x ∷ xs) [] zs h g = ground arith
  le_list_trans (x ∷ xs) (y ∷ ys) [] h g = ground arith
  le_list_trans (x ∷ xs) (y ∷ ys) (z ∷ zs) h g =
      ground (arith, o.trans x y z, o.trans y z x, o.trans z x y, le_list_trans xs ys zs)

instance abbrev pub list_order {ℓ} : {A : Type ℓ} ⦃o : Order A⦄ → Order (List A)
list_order = record {
  le = le_list;
  total = le_list-total;
  trans = le_list_trans;
  antisym = le_list-antisym;
}

instance abbrev pub ℤ_order : Order ℤ
ℤ_order = record { le = leℤ; total = leℤ-total; trans = leℤ-trans; antisym = leℤ-antisym }

-- The order of a struct's fields, one after the other, and that of a value by its fields.
module _ {ℓ κ} {A : Type ℓ} {B : Type κ} ⦃o : Order A⦄ ⦃p : Order B⦄ where
  abbrev pub le_pair : A × B → A × B → Bool
  le_pair x y = lex (o.le x.0 y.0) (o.le y.0 x.0) (p.le x.1 y.1)

  pub le_pair-total : (x y : A × B) → le_pair x y ≡ false → le_pair y x ≡ true
  le_pair-total (a, b) (c, d) h = ground (arith, o.total a c, p.total b d)

  pub le_pair_trans : (x y z : A × B) → le_pair x y ≡ true → le_pair y z ≡ true → le_pair x z ≡ true
  le_pair_trans (a, b) (c, d) (e, f) h g =
      ground (arith, o.trans a c e, o.trans c e a, o.trans e a c, p.trans b d f)

  pub le_pair-antisym : (x y : A × B) → le_pair x y ≡ true → le_pair y x ≡ true → x ≡ y
  le_pair-antisym (a, b) (c, d) h g = ground (arith, o.antisym a c, p.antisym b d)

  -- What is in order between two pairs with one first part has that first part.
  pub le_pair-between :
      (x y z : A × B)
      → le_pair x y ≡ true
      → le_pair y z ≡ true
      → x.0 ≡ z.0
      → (x.0 ≡ y.0) × (p.le x.1 y.1 ≡ true) × (p.le y.1 z.1 ≡ true)
  le_pair-between (a, b) (c, d) (e, f) h g same = ground (
    arith,
    o.antisym a c,
    o.antisym c e,
    o.trans c e a,
    ap (o.le c) same,
    ap (λ t. o.le t a) same,
    ap (λ t. o.le t c) same,
  )

instance abbrev pub pair_order {ℓ κ} :
    {A : Type ℓ} {B : Type κ} ⦃o : Order A⦄ ⦃p : Order B⦄ → Order (A × B)
pair_order = record {
  le = le_pair;
  total = le_pair-total;
  trans = le_pair_trans;
  antisym = le_pair-antisym;
}

-- Values that are ordered by what tells them apart.
abbrev pub order_of {ℓ κ} :
    {A : Type ℓ} {B : Type κ} ⦃o : Order B⦄ (f : A → B) → ((x y : A) → f x ≡ f y → x ≡ y) → Order A
order_of ⦃o⦄ f apart = record {
  le = λ x y. o.le (f x) (f y);
  total = λ x y. o.total (f x) (f y);
  trans = λ x y z. o.trans (f x) (f y) (f z);
  antisym = λ x y h g. apart x y (o.antisym (f x) (f y) h g);
}
