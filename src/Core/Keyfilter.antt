-- ===== src/Core/Keyfilter.antt =====
-- crates/ukiel-core/src/keyfilter.rs: the Bloom filter over a part's packing keys, and the SQL
-- predicate that asks it. A blob is its bytes; the text of the SQL is modelled by what it means.
pub mod Bits
pub mod Blob
pub mod Membership
pub mod Sql
pub mod Bounds
mod Examples
use Prim.Native.Nat.{bit_and, bit_or}
use ukiel.Base.{
  ℕ, zero, suc, ◌+◌, ◌-◌, ◌*◌, ◌/◌, ◌%◌, ◌^◌, Bool, true, false, not, ◌&&◌, ◌||◌, Option, none,
  some, List, [], ◌∷◌, ◌++◌, map, length, ltb, leb, ◌==◌, nat_eq, if◌then◌else◌, find, any, all,
  drop,
}
use ukiel.Base.Int.{ℤ, pos, negsuc}

abbrev pub key_filter_v1 : ℕ
key_filter_v1 = 1

abbrev pub max_keys_worth_filtering : ℕ
max_keys_worth_filtering = 8_000

pub record Tier : Type 0 where
  pub bytes : ℕ
  pub supported_keys : ℕ

abbrev pub largest_tier : Tier
largest_tier = record { bytes = 2048; supported_keys = 1_280 }

abbrev pub tiers : List Tier
tiers =
    record { bytes = 128; supported_keys = 80 }
    ∷ record { bytes = 1024; supported_keys = 640 }
    ∷ largest_tier
    ∷ []

-- `TIERS.iter().find(..).unwrap_or(last)`
unfoldable pub tier_for : ℕ → Tier
tier_for keys = elim (find (λ (t : Tier). leb keys t.supported_keys) tiers) [
  | some t ↦ t
  | none ↦ largest_tier
]

unfoldable pub encoded_len_for : ℕ → ℕ
encoded_len_for keys =
    if leb keys 1 || ltb max_keys_worth_filtering keys then 0 else 1 + (tier_for keys).bytes

pub record Probe : Type 0 where
  pub byte : ℕ
  pub mask : ℕ

abbrev pub hash_prime : ℕ
hash_prime = 2_147_483_647

-- `(a, b)` of each probe.
abbrev pub probe_params : List (ℕ × ℕ)
probe_params =
    (1_640_531_527, 1_013_904_223)
    ∷ (1_103_515_245, 12_345)
    ∷ (1_664_525, 1_566_083_941)
    ∷ (2_654_435_761 % hash_prime, 362_437)
    ∷ []

-- `i64::rem_euclid`: the remainder that is never negative.
unfoldable pub rem_euclid : ℤ → ℕ → ℕ
rem_euclid (pos n) m = n % m
rem_euclid (negsuc n) m = m - 1 - n % m

-- The arithmetic stays inside `i64`, so it is the arithmetic of numbers (`hash_bounds`).
unfoldable pub bit_index : ℤ → ℕ × ℕ → ℕ → ℕ
unfolding rem_euclid
bit_index key (a, b) bits = ((a * rem_euclid key hash_prime + b) % hash_prime) % bits

unfoldable pub probe_at : ℕ → Probe
probe_at bit = record { byte = 1 + bit / 8; mask = 2 ^ (bit % 8) }

unfoldable pub probes : ℤ → ℕ → List Probe
unfolding bit_index probe_at
probes key bits = map (λ p. probe_at (bit_index key p bits)) probe_params

-- `blob[i]`; every index the code uses is inside the blob.
abbrev pub byte_at : List ℕ → ℕ → ℕ
byte_at [] i = 0
byte_at (x ∷ xs) zero = x
byte_at (x ∷ xs) (suc i) = byte_at xs i

-- `blob[i] |= mask`
abbrev pub or_byte : List ℕ → ℕ → ℕ → List ℕ
or_byte [] i m = []
or_byte (x ∷ xs) zero m = bit_or x m ∷ xs
or_byte (x ∷ xs) (suc i) m = x ∷ or_byte xs i m

abbrev pub zeroes : ℕ → List ℕ
zeroes zero = []
zeroes (suc n) = 0 ∷ zeroes n

unfoldable pub set_probes : List Probe → List ℕ → List ℕ
set_probes [] blob = blob
set_probes (p ∷ ps) blob = set_probes ps (or_byte blob p.byte p.mask)

unfoldable pub set_keys : List ℤ → ℕ → List ℕ → List ℕ
set_keys [] bits blob = blob
set_keys (k ∷ ks) bits blob = set_keys ks bits (set_probes (probes k bits) blob)

abbrev pub is_negative : ℤ → Bool
is_negative (pos n) = false
is_negative (negsuc n) = true

unfoldable pub build : List ℤ → Option (List ℕ)
build keys =
    if leb (length keys) 1 || (ltb max_keys_worth_filtering (length keys) || any is_negative keys)
    then none
    else some (
        set_keys keys ((tier_for (length keys)).bytes * 8)
          (key_filter_v1 ∷ zeroes (tier_for (length keys)).bytes))

-- `filter[p.byte] & p.mask != 0`
abbrev pub probe_hits : List ℕ → Probe → Bool
probe_hits blob p = not (bit_and (byte_at blob p.byte) p.mask == 0)

unfoldable pub maybe_contains : List ℕ → ℤ → Bool
maybe_contains blob key =
    if is_negative key || (ltb (length blob) 2 || not (byte_at blob 0 == key_filter_v1))
    then true
    else elim (find (λ (t : Tier). length blob == 1 + t.bytes) tiers) [
      | none ↦ true
      | some t ↦ all (probe_hits blob) (probes key (t.bytes * 8))
    ]

-- `sql_binds`: for each tier, the probes' byte offsets and masks in turn.
abbrev pub flatten_probes : List Probe → List ℕ
flatten_probes [] = []
flatten_probes (p ∷ ps) = p.byte ∷ p.mask ∷ flatten_probes ps

unfoldable pub tier_binds : ℤ → List Tier → List ℕ
tier_binds key [] = []
tier_binds key (t ∷ ts) = flatten_probes (probes key (t.bytes * 8)) ++ tier_binds key ts

unfoldable pub sql_binds : ℤ → List ℕ
unfolding tier_binds
sql_binds key = tier_binds key tiers

-- `(get_byte(col, $i) & $j) <> 0 AND …` over the first `n` pairs of binds.
unfoldable pub sql_tests : ℕ → List ℕ → List ℕ → Bool
sql_tests (suc n) (byte ∷ mask ∷ rest) blob =
    probe_hits blob (record { byte = byte; mask = mask }) && sql_tests n rest blob
sql_tests _ _ blob = true

-- The arms of the `CASE`, one for each tier; each arm owns eight binds.
unfoldable pub sql_arms : List Tier → List ℕ → List ℕ → Bool
unfolding sql_tests
sql_arms [] binds blob = true
sql_arms (t ∷ ts) binds blob =
    if length blob == 1 + t.bytes then sql_tests 4 binds blob else sql_arms ts (drop 8 binds) blob

-- What the generated `CASE` answers of a `BYTEA` column, null included.
unfoldable pub sql_predicate : Option (List ℕ) → List ℕ → Bool
sql_predicate none binds = true
sql_predicate (some blob) binds =
    if ltb (length blob) 2
    then true
    else if not (byte_at blob 0 == key_filter_v1)
    then true
    else sql_arms tiers binds blob
