-- ===== src/Core/Keyfilter/Bounds.antt =====
-- keyfilter.rs: the range of the hash and of the bit it lands on.
use ukiel.Base.{ℕ, ◌+◌, ◌*◌, ◌^◌, ◌<◌, arith, All}
use ukiel.Base.Int.{ℤ, pos, negsuc}
use ukiel.Core.Keyfilter.{probe_params, rem_euclid, hash_prime, bit_index}
use ukiel.Core.Keyfilter.Blob.{bit_index-lt}

rem_euclid-lt : (key : ℤ) → rem_euclid key hash_prime < hash_prime
unfolding rem_euclid
rem_euclid-lt (pos n) = omega arith
rem_euclid-lt (negsuc n) = omega arith

-- For every key and each probe's parameters, `a * k + b` is below 2^63, so the hash of an `i64`
-- key does not overflow, and the bit it lands on lies inside a filter of `bits` bits.
pub hash_bounds :
    (key : ℤ) (bits : ℕ)
    → 0 < bits
    → All
        (λ (ab : ℕ × ℕ).
          (ab.0 * rem_euclid key hash_prime + ab.1 < 2 ^ 63) × (bit_index key ab bits < bits))
        probe_params
hash_bounds key bits h = (
  (omega (arith, rem_euclid-lt key), bit_index-lt key _ bits h),
  (
    (omega (arith, rem_euclid-lt key), bit_index-lt key _ bits h),
    (
      (omega (arith, rem_euclid-lt key), bit_index-lt key _ bits h),
      ((omega (arith, rem_euclid-lt key), bit_index-lt key _ bits h), tt),
    ),
  ),
)
