-- ===== src/Core/Keyfilter/Examples.antt =====
-- Tests of keyfilter.rs, and its theorems at concrete inputs.
use ukiel.Base.{
  ℕ, ◌+◌, ◌-◌, ◌*◌, ◌%◌, ◌^◌, ◌<◌, ◌≡◌, refl, true, false, some, none, List, [], ◌∷◌, All, arith,
}
use ukiel.Base.Int.{ℤ, pos, negsuc}
use ukiel.Core.Keyfilter.{
  build, maybe_contains, sql_predicate, sql_binds, tier_for, set_keys, set_probes, probes,
  bit_index, probe_at, rem_euclid, hash_prime, probe_params, zeroes,
}
use ukiel.Core.Keyfilter.Membership.{build-no_false_negative}
use ukiel.Core.Keyfilter.Sql.{sql_predicate-maybe_contains, negative_key, sql_keeps_present}
use ukiel.Core.Keyfilter.Bounds.{hash_bounds}

abbrev tenants : List ℤ
tenants = pos 3 ∷ pos 4500 ∷ []

-- The filter of the two keys, as the code computes it.
packed : List ℕ
unfolding set_keys set_probes probes bit_index probe_at rem_euclid
packed = set_keys tenants 1024 (1 ∷ zeroes 128)

packed_built : build tenants ≡ some packed
unfolding build tier_for packed
packed_built = refl

absent_key : maybe_contains packed (pos 300) ≡ false
unfolding maybe_contains packed
absent_key = refl

single_key : build (pos 3 ∷ []) ≡ none
unfolding build
single_key = refl

build-no_false_negative_example : All (λ k. maybe_contains packed k ≡ true) tenants
build-no_false_negative_example = build-no_false_negative tenants packed packed_built

sql_keeps_present_example : All (λ k. sql_predicate (some packed) (sql_binds k) ≡ true) tenants
sql_keeps_present_example = sql_keeps_present tenants packed packed_built

sql_predicate-maybe_contains_example :
    sql_predicate (some packed) (sql_binds (pos 300)) ≡ maybe_contains packed (pos 300)
sql_predicate-maybe_contains_example = sql_predicate-maybe_contains packed 300

negative_key_example :
    (maybe_contains packed (negsuc 4) ≡ true)
    × (sql_predicate (some packed) (sql_binds (negsuc 4))
        ≡ maybe_contains packed (pos (hash_prime - 1 - 4 % hash_prime)))
negative_key_example = negative_key packed 4

hash_bounds_example :
    All
      (λ (ab : ℕ × ℕ).
        (ab.0 * rem_euclid (negsuc 4) hash_prime + ab.1 < 2 ^ 63)
        × (bit_index (negsuc 4) ab 1024 < 1024))
      probe_params
hash_bounds_example = hash_bounds (negsuc 4) 1024 (omega arith)
