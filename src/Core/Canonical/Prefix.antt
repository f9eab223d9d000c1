-- ===== src/Core/Canonical/Prefix.antt =====
-- The canonical bytes of operation.rs read back: what two equal buffers were made of.
use Prim.Native.Char.{code}
use Prim.Native.String.{[] as empty, ◌∷◌ as char_then}
use package.text.Mathlib.TextEquality.{Char-path}
use native.Mathlib.Nat.{pow-suc}
use mathlib.Core.Path.{ap₂}
use ukiel.Base.{
  ℕ, zero, suc, ◌/◌, ◌%◌, ◌^◌, ◌<◌, ◌≡◌, refl, sym, ap, String, List, [], ◌∷◌, length, arith,
}
use ukiel.Base.Int.{ℤ, pos, negsuc}
use ukiel.Core.Canonical.{utf8_char, utf8, push_all, be_bytes, bits, text, str, int}

-- What a buffer that can be in memory has for its lengths, and an `i64` for its value.
abbrev pub FitsSize : ℕ → Type 0
FitsSize n = n < 2 ^ 64

abbrev pub FitsText : String → Type 0
FitsText s = FitsSize (length (utf8 s))

abbrev pub FitsInt : ℤ → Type 0
FitsInt (pos n) = n < 2 ^ 63
FitsInt (negsuc n) = n < 2 ^ 63

utf8_char-injective : (c d : ℕ) (r s : List ℕ) → utf8_char c r ≡ utf8_char d s → (c ≡ d) × (r ≡ s)
utf8_char-injective c d r s h = ground arith

pub be_bytes-injective :
    (width m n : ℕ) (r s : List ℕ)
    → m < 256 ^ width
    → n < 256 ^ width
    → be_bytes width m r ≡ be_bytes width n s
    → (m ≡ n) × (r ≡ s)
be_bytes-injective zero m n r s a b h = (omega (arith, a, b), h)
be_bytes-injective (suc width) m n r s a b h = ground (
  arith,
  be_bytes-injective width (m / 256) (n / 256) (m % 256 ∷ r) (n % 256 ∷ s)
      (omega (arith, a, pow-suc 256 width)) (omega (arith, b, pow-suc 256 width)) h,
)

bits-injective : (v w : ℤ) → FitsInt v → FitsInt w → bits v ≡ bits w → v ≡ w
bits-injective (pos m) (pos n) a b h = ap pos (omega arith)
bits-injective (pos m) (negsuc n) a b h = absurd (omega arith)
bits-injective (negsuc m) (pos n) a b h = absurd (omega arith)
bits-injective (negsuc m) (negsuc n) a b h = ap negsuc (omega arith)

push_all-injective :
    (xs ys r s : List ℕ)
    → length xs ≡ length ys
    → push_all xs r ≡ push_all ys s
    → (xs ≡ ys) × (r ≡ s)
push_all-injective [] [] r s e h = (refl, h)
push_all-injective [] (y ∷ ys) r s e h = absurd (omega (arith, e))
push_all-injective (x ∷ xs) [] r s e h = absurd (omega (arith, e))
push_all-injective (x ∷ xs) (y ∷ ys) r s e h = ground (arith, push_all-injective xs ys r s)

utf8_char-occupied : (c : ℕ) (r : List ℕ) → [] ≡ utf8_char c r → ⊥
utf8_char-occupied c r h = ground arith

pub tail-eq : {x y : ℕ} {xs ys : List ℕ} → x ∷ xs ≡ y ∷ ys → xs ≡ ys
tail-eq h = ground arith

bits-bound : (v : ℤ) → bits v < 256 ^ 8
bits-bound (pos n) = omega arith
bits-bound (negsuc n) = omega arith

pub utf8-injective : (s t : String) → utf8 s ≡ utf8 t → s ≡ t
utf8-injective empty empty h = refl
utf8-injective empty (char_then d t) h = absurd (utf8_char-occupied (code d) (utf8 t) h)
utf8-injective (char_then c s) empty h = absurd (utf8_char-occupied (code c) (utf8 s) (sym h))
utf8-injective (char_then c s) (char_then d t) h =
    let (first, rest) = utf8_char-injective (code c) (code d) (utf8 s) (utf8 t) h in
    ap₂ char_then (Char-path c d first) (utf8-injective s t rest)

-- One encoder's bytes tell where they end: what was pushed, and what was pushed after it.
pub text-prefix :
    (s t : String) (q r : List ℕ)
    → FitsText s
    → FitsText t
    → text s q ≡ text t r
    → (s ≡ t) × (q ≡ r)
text-prefix s t q r a b h =
    let (sizes, rest) =
      be_bytes-injective 8 (length (utf8 s)) (length (utf8 t)) (push_all (utf8 s) q)
        (push_all (utf8 t) r) (omega (arith, a)) (omega (arith, b)) h in
    let (bytes, after) = push_all-injective (utf8 s) (utf8 t) q r sizes rest in
    (utf8-injective s t bytes, after)

pub str-prefix :
    (s t : String) (q r : List ℕ) → FitsText s → FitsText t → str s q ≡ str t r → (s ≡ t) × (q ≡ r)
str-prefix s t q r a b h = text-prefix s t q r a b (tail-eq h)

pub int-prefix :
    (v w : ℤ) (q r : List ℕ) → FitsInt v → FitsInt w → int v q ≡ int w r → (v ≡ w) × (q ≡ r)
int-prefix v w q r a b h =
    let (same, after) =
      be_bytes-injective 8 (bits v) (bits w) q r (bits-bound v) (bits-bound w) (tail-eq h) in
    (bits-injective v w a b same, after)
