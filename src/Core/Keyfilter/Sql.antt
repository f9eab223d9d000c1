-- ===== src/Core/Keyfilter/Sql.antt =====
-- keyfilter.rs: the predicate handed to the database against `maybe_contains`.
use ukiel.Base.{
  nat_eq, any, ℕ, suc, ◌+◌, ◌-◌, ◌*◌, ◌%◌, ◌≡◌, ◌∙◌, refl, ap, Bool, true, false, ◌&&◌, List, [],
  ◌∷◌, ◌++◌, Option, some, none, arith, ◌==◌, length, All, all, find, drop,
}
use ukiel.Base.Int.{ℤ, pos, negsuc}
use ukiel.Core.Keyfilter.{
  Probe, Tier, tiers, probe_hits, probes, is_negative, flatten_probes, tier_binds, sql_binds,
  sql_tests, sql_arms, sql_predicate, maybe_contains, hash_prime, bit_index, build,
}
use ukiel.Core.Keyfilter.Membership.{build-Built, build-no_false_negative}

tests-all :
    (ps : List Probe) (rest blob : List ℕ)
    → sql_tests (length ps) (flatten_probes ps ++ rest) blob ≡ all (probe_hits blob) ps
unfolding sql_tests
tests-all [] rest blob = refl
tests-all (p ∷ ps) rest blob = ap (λ b. probe_hits blob p && b) (tests-all ps rest blob)

drop_flat :
    (ps : List Probe) (rest : List ℕ)
    → drop (length ps + length ps) (flatten_probes ps ++ rest) ≡ rest
drop_flat [] rest = refl
drop_flat (p ∷ ps) rest = rw add-twice (drop_flat ps rest)
  where
    add-twice : suc (length ps) + suc (length ps) ≡ suc (suc (length ps + length ps))
    add-twice = omega arith

length-probes : (key : ℤ) (bits : ℕ) → length (probes key bits) ≡ 4
unfolding probes
length-probes key bits = refl

-- The answer by the first tier whose size is the blob's.
abbrev by_tier : ℤ → List ℕ → Option Tier → Bool
by_tier key blob none = true
by_tier key blob (some t) = all (probe_hits blob) (probes key (t.bytes * 8))

arms-find :
    (key : ℤ) (ts : List Tier) (blob : List ℕ)
    → sql_arms ts (tier_binds key ts) blob
      ≡ by_tier key blob (find (λ (t : Tier). length blob == 1 + t.bytes) ts)
unfolding sql_arms tier_binds
arms-find key [] blob = refl
arms-find key (t ∷ ts) blob = ground (
  arith,
  tests-all (probes key (t.bytes * 8)) (tier_binds key ts) blob,
  drop_flat (probes key (t.bytes * 8)) (tier_binds key ts),
  length-probes key (t.bytes * 8),
  arms-find key ts blob,
)

-- For every blob, well-formed or not, and every key that is not negative, the SQL over the key's
-- binds answers exactly what `maybe_contains` answers.
pub sql_predicate-maybe_contains :
    (blob : List ℕ) (n : ℕ)
    → sql_predicate (some blob) (sql_binds (pos n)) ≡ maybe_contains blob (pos n)
unfolding sql_predicate maybe_contains sql_binds
sql_predicate-maybe_contains blob n = ground (arith, arms-find (pos n) tiers blob)

residue_fixed :
    (n : ℕ) → (hash_prime - 1 - n % hash_prime) % hash_prime ≡ hash_prime - 1 - n % hash_prime
residue_fixed n = omega arith

bit_residue :
    (n bits : ℕ) (ab : ℕ × ℕ)
    → bit_index (negsuc n) ab bits ≡ bit_index (pos (hash_prime - 1 - n % hash_prime)) ab bits
unfolding bit_index
bit_residue n bits (a, b) = rw (residue_fixed n)

probes_residue :
    (n bits : ℕ) → probes (negsuc n) bits ≡ probes (pos (hash_prime - 1 - n % hash_prime)) bits
unfolding probes
probes_residue n bits = simp bit_residue

binds_residue :
    (n : ℕ) (ts : List Tier)
    → tier_binds (negsuc n) ts ≡ tier_binds (pos (hash_prime - 1 - n % hash_prime)) ts
unfolding tier_binds
binds_residue n [] = refl
binds_residue n (t ∷ ts) = rw (probes_residue n (t.bytes * 8), binds_residue n ts)

-- Of the negative key -(n + 1) `maybe_contains` says "maybe", but the SQL tests the probes of its
-- residue modulo the hash prime, a key that is not negative.
pub negative_key :
    (blob : List ℕ) (n : ℕ)
    → (maybe_contains blob (negsuc n) ≡ true)
      × (sql_predicate (some blob) (sql_binds (negsuc n))
          ≡ maybe_contains blob (pos (hash_prime - 1 - n % hash_prime)))
negative_key blob n =
    (keeps, rw (← sql_predicate-maybe_contains) (ap (sql_predicate (some blob)) binds))
  where
    keeps : maybe_contains blob (negsuc n) ≡ true
    keeps = unfold maybe_contains in refl

    binds : sql_binds (negsuc n) ≡ sql_binds (pos (hash_prime - 1 - n % hash_prime))
    binds = unfold sql_binds in binds_residue n tiers

sql_keeps :
    (blob : List ℕ) (ks : List ℤ)
    → any is_negative ks ≡ false
    → All (λ k. maybe_contains blob k ≡ true) ks
    → All (λ k. sql_predicate (some blob) (sql_binds k) ≡ true) ks
sql_keeps blob [] s h = tt
sql_keeps blob (pos n ∷ ks) s h =
    (sql_predicate-maybe_contains blob n ∙ h.0, sql_keeps blob ks s h.1)
sql_keeps blob (negsuc n ∷ ks) s h = cc

-- Whenever a filter is built for a part's keys, the SQL keeps the part for every one of them.
pub sql_keeps_present :
    (keys : List ℤ) (blob : List ℕ)
    → build keys ≡ some blob
    → All (λ k. sql_predicate (some blob) (sql_binds k) ≡ true) keys
sql_keeps_present keys blob h =
    sql_keeps blob keys (build-Built keys h).nonnegative (build-no_false_negative keys blob h)
