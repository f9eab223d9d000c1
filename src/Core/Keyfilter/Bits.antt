-- ===== src/Core/Keyfilter/Bits.antt =====
-- Facts about single bits of a byte, checked value by value, and about writing one into a blob.
use Prim.Native.Nat.{bit_and, bit_or}
use ukiel.Base.{
  ℕ, zero, suc, ◌^◌, ◌<◌, ◌≡◌, refl, Bool, true, not, ◌&&◌, ◌||◌, arith, ltb, ◌==◌, nat_eq,
}

-- `p` holds of `0 … n - 1`.
checks : (ℕ → Bool) → ℕ → Bool
checks p zero = true
checks p (suc top) = checks p top && p top

checks-at : (p : ℕ → Bool) (n i : ℕ) → i < n → checks p n ≡ true → p i ≡ true
unfolding checks
checks-at p zero i lt h = elim lt [ ]
checks-at p (suc top) i lt h = ground (arith, checks-at p top i)

-- A bit of the byte `x` is set.
abbrev hit : ℕ → ℕ → Bool
hit x k = not (bit_and x (2 ^ k) == 0)

-- Setting bit `j` of `x` leaves a byte with that bit set, and clears no other bit.
one_bit : ℕ → ℕ → Bool
unfolding checks
one_bit j x =
    let y = bit_or x (2 ^ j) in ltb y 256 && hit y j && checks (λ k. not (hit x k) || hit y k) 8

one_bit_table : checks (λ j. checks (one_bit j) 256) 8 ≡ true
unfolding checks one_bit
one_bit_table = refl

one_bit-at : (x j : ℕ) → x < 256 → j < 8 → one_bit j x ≡ true
one_bit-at x j hx hj =
    checks-at (one_bit j) 256 x hx (checks-at (λ i. checks (one_bit i) 256) 8 j hj one_bit_table)

pub set_bit :
    (x j : ℕ) → x < 256 → j < 8 → (bit_or x (2 ^ j) < 256) × (hit (bit_or x (2 ^ j)) j ≡ true)
unfolding one_bit
set_bit x j hx hj = ground (arith, one_bit-at x j hx hj)

pub set_bit_keeps :
    (x j k : ℕ) → x < 256 → j < 8 → k < 8 → hit x k ≡ true → hit (bit_or x (2 ^ j)) k ≡ true
unfolding one_bit
set_bit_keeps x j k hx hj hk h =
    ground (
      arith,
      one_bit-at x j hx hj,
      checks-at (λ i. not (hit x i) || hit (bit_or x (2 ^ j)) i) 8 k hk,
    )
