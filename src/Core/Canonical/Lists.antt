-- ===== src/Core/Canonical/Lists.antt =====
-- The composite encoders of operation.rs read back: `list`, `placement` and `json`.
use mathlib.Core.Path.{ap₂}
use ukiel.Base.{ℕ, ◌≡◌, refl, ap, List, [], ◌∷◌, length, All, true, false, arith}
use ukiel.Core.Table.{Placement, packed, separated, size_targeted}
use ukiel.Core.Canonical.{
  push_len, int, each, list, placement, Value, null, bool, number, string, array, object, Values,
  none_left, item, Fields, no_field, field, count_values, count_fields, sorted, push_value,
  push_values, push_fields, json,
}
use ukiel.Core.Canonical.Prefix.{
  FitsSize, FitsText, FitsInt, be_bytes-injective, text-prefix, str-prefix, int-prefix, tail-eq,
}

push_len-prefix :
    (m n : ℕ) (q r : List ℕ)
    → FitsSize m
    → FitsSize n
    → push_len m q ≡ push_len n r
    → (m ≡ n) × (q ≡ r)
push_len-prefix m n q r a b h = be_bytes-injective 8 m n q r (omega (arith, a)) (omega (arith, b)) h

module _ {ℓ κ} {A : Type ℓ} (push : A → List ℕ → List ℕ) (Fits : A → Type κ)
    (push-prefix : (x y : A) (q r : List ℕ)
      → Fits x
      → Fits y
      → push x q ≡ push y r
      → (x ≡ y) × (q ≡ r)) where
  each-prefix :
      (xs ys : List A) (q r : List ℕ)
      → All Fits xs
      → All Fits ys
      → length xs ≡ length ys
      → each push xs q ≡ each push ys r
      → (xs ≡ ys) × (q ≡ r)
  each-prefix [] [] q r a b e h = (refl, h)
  each-prefix [] (y ∷ ys) q r a b e h = absurd (omega (arith, e))
  each-prefix (x ∷ xs) [] q r a b e h = absurd (omega (arith, e))
  each-prefix (x ∷ xs) (y ∷ ys) q r a b e h =
      let (first, rest) = push-prefix x y (each push xs q) (each push ys r) a.0 b.0 h in
      let (others, after) = each-prefix xs ys q r a.1 b.1 (omega (arith, e)) rest in
      (ap₂ (λ u v. u ∷ v) first others, after)

  pub list-prefix :
      (xs ys : List A) (q r : List ℕ)
      → FitsSize (length xs) × All Fits xs
      → FitsSize (length ys) × All Fits ys
      → list push xs q ≡ list push ys r
      → (xs ≡ ys) × (q ≡ r)
  list-prefix xs ys q r a b h =
      let (sizes, rest) =
        push_len-prefix (length xs) (length ys) (each push xs q) (each push ys r) a.0 b.0
          (tail-eq h) in
      each-prefix xs ys q r a.1 b.1 sizes rest

abbrev pub FitsPlacement : Placement → Type 0
FitsPlacement packed = Unit
FitsPlacement separated = Unit
FitsPlacement (size_targeted n) = FitsInt n

-- What keeps the lengths in a value within 64 bits.
abbrev mutual
  pub FitsValue : Value → Type 0
  FitsValue null = Unit
  FitsValue (bool b) = Unit
  FitsValue (number n) = FitsText n
  FitsValue (string s) = FitsText s
  FitsValue (array vs) = FitsSize (count_values vs) × FitsValues vs
  FitsValue (object fs) = FitsSize (count_fields fs) × FitsFields fs

  pub FitsValues : Values → Type 0
  FitsValues none_left = Unit
  FitsValues (item v vs) = FitsValue v × FitsValues vs

  pub FitsFields : Fields → Type 0
  FitsFields no_field = Unit
  FitsFields (field k v fs) = FitsText k × FitsValue v × FitsFields fs

head-eq : {x y : ℕ} {xs ys : List ℕ} → x ∷ xs ≡ y ∷ ys → x ≡ y
head-eq h = ground arith

mutual
  value_prefix :
      (v w : Value) (q r : List ℕ)
      → FitsValue v
      → FitsValue w
      → push_value v q ≡ push_value w r
      → (v ≡ w) × (q ≡ r)
  value_prefix null null q r a b h = (refl, tail-eq h)
  value_prefix (bool true) (bool true) q r a b h = (refl, tail-eq (tail-eq h))
  value_prefix (bool false) (bool false) q r a b h = (refl, tail-eq (tail-eq h))
  value_prefix (number n) (number m) q r a b h =
      let (same, after) = text-prefix n m q r a b (tail-eq h) in (ap number same, after)
  value_prefix (string n) (string m) q r a b h =
      let (same, after) = text-prefix n m q r a b (tail-eq h) in (ap string same, after)
  value_prefix (array vs) (array ws) q r a b h =
      let (sizes, rest) =
        push_len-prefix (count_values vs) (count_values ws) (push_values vs q) (push_values ws r)
          a.0 b.0 (tail-eq h) in
      let (same, after) = values_prefix vs ws q r a.1 b.1 sizes rest in (ap array same, after)
  value_prefix (object vs) (object ws) q r a b h =
      let (sizes, rest) =
        push_len-prefix (count_fields vs) (count_fields ws) (push_fields vs q) (push_fields ws r)
          a.0 b.0 (tail-eq h) in
      let (same, after) = fields_prefix vs ws q r a.1 b.1 sizes rest in (ap object same, after)
  value_prefix (bool true) (bool false) q r a b h = absurd (omega (arith, head-eq (tail-eq h)))
  value_prefix (bool false) (bool true) q r a b h = absurd (omega (arith, head-eq (tail-eq h)))
  value_prefix v w q r a b h = absurd (omega (arith, head-eq h))

  values_prefix :
      (vs ws : Values) (q r : List ℕ)
      → FitsValues vs
      → FitsValues ws
      → count_values vs ≡ count_values ws
      → push_values vs q ≡ push_values ws r
      → (vs ≡ ws) × (q ≡ r)
  values_prefix none_left none_left q r a b e h = (refl, h)
  values_prefix none_left (item w ws) q r a b e h = absurd (omega (arith, e))
  values_prefix (item v vs) none_left q r a b e h = absurd (omega (arith, e))
  values_prefix (item v vs) (item w ws) q r a b e h =
      let (first, rest) = value_prefix v w (push_values vs q) (push_values ws r) a.0 b.0 h in
      let (others, after) = values_prefix vs ws q r a.1 b.1 (omega (arith, e)) rest in
      (ap₂ item first others, after)

  fields_prefix :
      (vs ws : Fields) (q r : List ℕ)
      → FitsFields vs
      → FitsFields ws
      → count_fields vs ≡ count_fields ws
      → push_fields vs q ≡ push_fields ws r
      → (vs ≡ ws) × (q ≡ r)
  fields_prefix no_field no_field q r a b e h = (refl, h)
  fields_prefix no_field (field k w ws) q r a b e h = absurd (omega (arith, e))
  fields_prefix (field k v vs) no_field q r a b e h = absurd (omega (arith, e))
  fields_prefix (field k v vs) (field j w ws) q r a b e h =
      let (keys, value) =
        text-prefix k j (push_value v (push_fields vs q)) (push_value w (push_fields ws r)) a.0 b.0
          h in
      let (first, rest) = value_prefix v w (push_fields vs q) (push_fields ws r) a.1 b.1 value in
      let (others, after) = fields_prefix vs ws q r a.2 b.2 (omega (arith, e)) rest in
      (λ i. field (keys i) (first i) (others i), after)

-- Equal canonical JSON is JSON that is equal once its objects' keys are in order.
pub json-prefix :
    (v w : Value) (q r : List ℕ)
    → FitsValue (sorted v)
    → FitsValue (sorted w)
    → json v q ≡ json w r
    → (sorted v ≡ sorted w) × (q ≡ r)
json-prefix v w q r a b h = value_prefix (sorted v) (sorted w) q r a b h

pub placement-prefix :
    (p s : Placement) (q r : List ℕ)
    → FitsPlacement p
    → FitsPlacement s
    → placement p q ≡ placement s r
    → (p ≡ s) × (q ≡ r)
placement-prefix packed packed q r a b h = ground arith
placement-prefix separated separated q r a b h = ground arith
placement-prefix (size_targeted m) (size_targeted n) q r a b h =
    let name =
      str-prefix "size_targeted" "size_targeted" (int m q) (int n r) (omega arith) (omega arith)
        h in
    let (same, after) = int-prefix m n q r a b name.1 in (ap size_targeted same, after)
placement-prefix p s q r a b h = absurd (ground arith)
