-- ===== src/Catalog/Windows/Resumed.antt =====
-- parts.rs: a window that is resumed after a cursor, as a part of the whole order.
use ukiel.Base.{
  ◌≡◌, ◌≢◌, refl, sym, ap, ◌∙◌, String, Bool, true, false, ◌&&◌, none, some, List, [], ◌∷◌, ◌++◌,
  arith, select, All, All-imp, All-select, Bool-cases, inl, inr, distinct, elem, string_eq, eq_iff,
}
use ukiel.Base.Sort.{Order, sort, insert, insert-All, sort-All}
use ukiel.Catalog.Windows.{beyond}

-- No value twice.
abbrev pub Once : List String → Type 0
Once [] = Unit
Once (x ∷ xs) = All (λ y. x ≢ y) xs × Once xs

pub select-Once : (p : String → Bool) (xs : List String) → Once xs → Once (select p xs)
select-Once p [] u = tt
select-Once p (x ∷ xs) u = ground (arith, select-Once p xs u.1, All-select (λ y. x ≢ y) p xs u.0)

absent : (x : String) (xs : List String) → elem x xs ≡ false → All (λ y. x ≢ y) xs
absent x [] h = tt
absent x (y ∷ ys) h = (λ e. ground (arith, eq_iff x y), absent x ys (ground arith))

distinct-All : (P : String → Type 0) (xs : List String) → All P xs → All P (distinct xs)
distinct-All P [] a = tt
distinct-All P (x ∷ xs) a = ground (arith, distinct-All P xs a.1)

pub distinct-Once : (xs : List String) → Once (distinct xs)
distinct-Once [] = tt
distinct-Once (x ∷ xs) = elim (Bool-cases (elem x xs)) [
  | inl e ↦ rw e (distinct-Once xs)
  | inr e ↦ rw e (distinct-All (λ y. x ≢ y) xs (absent x xs e), distinct-Once xs)
]

module _ ⦃o : Order String⦄ where
  -- Each before all that follow it.
  abbrev pub Strict : List String → Type 0
  Strict [] = Unit
  Strict (x ∷ xs) = All (λ y. o.le y x ≡ false) xs × Strict xs

  follows : (x y : String) → x ≢ y → o.le x y ≡ true → o.le y x ≡ false
  follows x y n h = elim (Bool-cases (o.le y x)) [
    | inl e ↦ elim (n (o.antisym x y h e)) [ ]
    | inr e ↦ e
  ]

  insert-Strict :
      (x : String) (xs : List String) → All (λ y. x ≢ y) xs → Strict xs → Strict (insert x xs)
  insert-Strict x [] n s = (tt, tt)
  insert-Strict x (y ∷ ys) n s = elim (Bool-cases (o.le x y)) [
    | inl e ↦ rw e ((follows x y n.0 e, All-imp (λ z h. ground (arith, o.trans z x y)) ys s.0), s)
    | inr e ↦ rw e (insert-All (λ z. o.le z y ≡ false) x ys e s.0, insert-Strict x ys n.1 s.1)
  ]

  pub sort-Strict : (xs : List String) → Once xs → Strict (sort xs)
  sort-Strict [] u = tt
  sort-Strict (x ∷ xs) u =
      insert-Strict x (sort xs) (sort-All (λ y. x ≢ y) xs u.0) (sort-Strict xs u.1)

  insert-least :
      (x : String) (xs : List String) → All (λ y. o.le x y ≡ true) xs → insert x xs ≡ x ∷ xs
  insert-least x [] a = refl
  insert-least x (y ∷ ys) a = rw a.0 refl

  select-insert_in :
      (q : String → Bool) (x : String) (s : List String)
      → q x ≡ true
      → Strict s
      → select q (insert x s) ≡ insert x (select q s)
  select-insert_in q x [] h t = rw h refl
  select-insert_in q x (y ∷ ys) h t = elim (Bool-cases (o.le x y)) [
    | inl e ↦
        rw (e, h)
          (sym (
            insert-least x (select q (y ∷ ys)) (
              All-select (λ z. o.le x z ≡ true) q (y ∷ ys)
                (e, All-imp (λ z g. o.trans x y z e (o.total z y g)) ys t.0))))
    | inr e ↦ elim (Bool-cases (q y)) [
      | inl g ↦ rw (e, g) (rw e (ap (λ zs. y ∷ zs) (select-insert_in q x ys h t.1)))
      | inr g ↦ rw (e, g) (select-insert_in q x ys h t.1)
    ]
  ]

  select-insert_out :
      (q : String → Bool) (x : String) (s : List String)
      → q x ≡ false
      → select q (insert x s) ≡ select q s
  select-insert_out q x [] h = rw h refl
  select-insert_out q x (y ∷ ys) h = ground (arith, select-insert_out q x ys h)

  -- A test after the sort, and one before it.
  pub sort-select :
      (f g : String → Bool) (xs : List String)
      → Once xs
      → sort (select (λ p. f p && g p) xs) ≡ select g (sort (select f xs))
  sort-select f g [] u = refl
  sort-select f g (x ∷ xs) u = elim (Bool-cases (f x)) [
    | inr e ↦ rw e (sort-select f g xs u.1)
    | inl e ↦ elim (Bool-cases (g x)) [
      | inl h ↦
          rw (e, h)
            (ap (insert x) (sort-select f g xs u.1)
              ∙ sym (
                  select-insert_in g x (sort (select f xs)) h
                    (sort-Strict (select f xs) (select-Once f xs u.1))))
      | inr h ↦
          rw (e, h) (sort-select f g xs u.1 ∙ sym (select-insert_out g x (sort (select f xs)) h))
    ]
  ]

  at_middle :
      (P : String → Type 0) (pre : List String) (a : String) (suf : List String)
      → All P (pre ++ a ∷ suf)
      → P a
  at_middle P [] a suf h = h.0
  at_middle P (p ∷ pre) a suf h = at_middle P pre a suf h.1

  reflexive : (a : String) → o.le a a ≡ true
  reflexive a = ground (arith, o.total a a)

  select_all_of :
      (a : String) (suf : List String)
      → All (λ y. o.le y a ≡ false) suf
      → select (beyond (some a)) suf ≡ suf
  select_all_of a [] h = refl
  select_all_of a (y ∷ ys) h = rw h.0 (ap (λ zs. y ∷ zs) (select_all_of a ys h.1))

  pub select-beyond :
      (pre : List String) (a : String) (suf : List String)
      → Strict (pre ++ a ∷ suf)
      → select (beyond (some a)) (pre ++ a ∷ suf) ≡ suf
  select-beyond [] a suf s = rw (reflexive a) (select_all_of a suf s.0)
  select-beyond (p ∷ pre) a suf s =
      rw (o.total a p (at_middle (λ y. o.le y p ≡ false) pre a suf s.0))
        (select-beyond pre a suf s.1)

  pub select_all : (xs : List String) → select (beyond none) xs ≡ xs
  select_all [] = refl
  select_all (x ∷ xs) = ap (λ ys. x ∷ ys) (select_all xs)
