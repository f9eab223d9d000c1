-- ===== src/Core/Keyfilter/Membership.antt =====
-- keyfilter.rs: the keys that went into a filter.
use ukiel.Base.{
  ℕ, zero, suc, ◌+◌, ◌*◌, ◌<◌, ◌≡◌, ◌⊎◌, refl, true, false, List, [], ◌∷◌, some, arith, ltb, leb,
  length, All, all, any,
}
use ukiel.Base.Int.{ℤ}
use ukiel.Core.Keyfilter.{
  Probe, probe_hits, zeroes, set_probes, set_keys, probes, build, maybe_contains, tier_for,
  is_negative, key_filter_v1, encoded_len_for, max_keys_worth_filtering,
}
use ukiel.Core.Keyfilter.Blob.{
  IsBlob, Fits, set_probes-IsBlob, set_probes_keep, All-set, probes-Fits,
}

-- Every probe of `ps` reads a set bit.
abbrev pub Hits : List ℕ → List Probe → Type 0
Hits blob ps = All (λ q. probe_hits blob q ≡ true) ps

Hits-keep :
    (n : ℕ) (ps qs : List Probe) (blob : List ℕ)
    → All (Fits n) ps
    → All (Fits n) qs
    → IsBlob n blob
    → Hits blob qs
    → Hits (set_probes ps blob) qs
Hits-keep n ps [] blob fs gs b h = tt
Hits-keep n ps (q ∷ qs) blob fs gs b h =
    (set_probes_keep n ps blob q fs gs.0 b h.0, Hits-keep n ps qs blob fs gs.1 b h.1)

module _ (m : ℕ) (pos_m : 0 < m) where
  set_keys-IsBlob :
      (ks : List ℤ) (blob : List ℕ)
      → IsBlob (1 + m) blob
      → IsBlob (1 + m) (set_keys ks (m * 8) blob)
  unfolding set_keys
  set_keys-IsBlob [] blob b = b
  set_keys-IsBlob (k ∷ ks) blob b =
      set_keys-IsBlob ks (set_probes (probes k (m * 8)) blob)
        (set_probes-IsBlob (1 + m) (probes k (m * 8)) blob (probes-Fits k m pos_m) b)

  set_keys_keep :
      (ks : List ℤ) (qs : List Probe) (blob : List ℕ)
      → All (Fits (1 + m)) qs
      → IsBlob (1 + m) blob
      → Hits blob qs
      → Hits (set_keys ks (m * 8) blob) qs
  unfolding set_keys
  set_keys_keep [] qs blob gs b h = h
  set_keys_keep (k ∷ ks) qs blob gs b h =
      set_keys_keep ks qs (set_probes (probes k (m * 8)) blob) gs
        (set_probes-IsBlob (1 + m) (probes k (m * 8)) blob (probes-Fits k m pos_m) b)
        (Hits-keep (1 + m) (probes k (m * 8)) qs blob (probes-Fits k m pos_m) gs b h)

  set_keys_hit :
      (ks : List ℤ) (blob : List ℕ)
      → IsBlob (1 + m) blob
      → All (λ k. Hits (set_keys ks (m * 8) blob) (probes k (m * 8))) ks
  unfolding set_keys
  set_keys_hit [] blob b = tt
  set_keys_hit (k ∷ ks) blob b =
      let b' = set_probes-IsBlob (1 + m) (probes k (m * 8)) blob (probes-Fits k m pos_m) b in
      (
        set_keys_keep ks (probes k (m * 8)) (set_probes (probes k (m * 8)) blob)
            (probes-Fits k m pos_m) b'
            (All-set (1 + m) (probes k (m * 8)) blob (probes-Fits k m pos_m) b),
        set_keys_hit ks (set_probes (probes k (m * 8)) blob) b',
      )

length-zeroes : (n : ℕ) → length (zeroes n) ≡ n
length-zeroes zero = refl
length-zeroes (suc n) = omega (arith, length-zeroes n)

bytes-zeroes : (n : ℕ) → All (λ x. x < 256) (zeroes n)
bytes-zeroes zero = tt
bytes-zeroes (suc n) = (omega arith, bytes-zeroes n)

blank-IsBlob : (m : ℕ) → IsBlob (1 + m) (key_filter_v1 ∷ zeroes m)
blank-IsBlob m = record {
  sized = omega (arith, length-zeroes m);
  bytes = (omega arith, bytes-zeroes m);
  version = refl;
}

-- The number of bytes is that of a tier.
abbrev pub IsTierSize : ℕ → Type 0
IsTierSize m = (m ≡ 128) ⊎ (m ≡ 1024) ⊎ (m ≡ 2048)

tier_for-size : (n : ℕ) → IsTierSize (tier_for n).bytes
unfolding tier_for
tier_for-size n = ground arith

-- What `build` made, when it made a filter.
pub record Built (keys : List ℤ) (blob : List ℕ) : Type 0 where
  pub size : ℕ
  pub tier : IsTierSize size
  pub sized : 1 + size ≡ encoded_len_for (length keys)
  pub blob_of : IsBlob (1 + size) blob
  pub hits : All (λ k. Hits blob (probes k (size * 8))) keys
  pub nonnegative : any is_negative keys ≡ false

build-cases :
    (keys : List ℤ) {blob : List ℕ}
    → build keys ≡ some blob
    → (blob
        ≡ set_keys keys
            ((tier_for (length keys)).bytes * 8)
            (key_filter_v1 ∷ zeroes (tier_for (length keys)).bytes))
      × (leb (length keys) 1 ≡ false)
      × (ltb max_keys_worth_filtering (length keys) ≡ false)
      × (any is_negative keys ≡ false)
unfolding build
build-cases keys h = ground arith

size_pos : {m : ℕ} → IsTierSize m → 0 < m
size_pos h = omega arith

pub build-Built : (keys : List ℤ) {blob : List ℕ} → build keys ≡ some blob → Built keys blob
unfolding encoded_len_for
build-Built keys {blob} h =
    let (made, many, few, signs) = build-cases keys h in
    let t = tier_for (length keys) in
    let size = tier_for-size (length keys) in
    record {
      size = t.bytes;
      tier = size;
      sized = ground (arith, many, few);
      blob_of = rw made (set_keys-IsBlob t.bytes (size_pos size) keys _ (blank-IsBlob t.bytes));
      hits = rw made (set_keys_hit t.bytes (size_pos size) keys _ (blank-IsBlob t.bytes));
      nonnegative = signs;
    }

all_of_Hits : (blob : List ℕ) (ps : List Probe) → Hits blob ps → all (probe_hits blob) ps ≡ true
all_of_Hits blob [] h = refl
all_of_Hits blob (p ∷ ps) h = rw h.0 (all_of_Hits blob ps h.1)

maybe_of_Hits :
    (blob : List ℕ) (m : ℕ) (key : ℤ)
    → IsTierSize m
    → IsBlob (1 + m) blob
    → Hits blob (probes key (m * 8))
    → maybe_contains blob key ≡ true
unfolding maybe_contains
maybe_of_Hits blob m key t b h =
    ground (arith, b.sized, b.version, all_of_Hits blob (probes key (m * 8)) h)

All-maybe :
    (blob : List ℕ) (m : ℕ) (keys : List ℤ)
    → IsTierSize m
    → IsBlob (1 + m) blob
    → All (λ k. Hits blob (probes k (m * 8))) keys
    → All (λ k. maybe_contains blob k ≡ true) keys
All-maybe blob m [] t b h = tt
All-maybe blob m (k ∷ ks) t b h = (maybe_of_Hits blob m k t b h.0, All-maybe blob m ks t b h.1)

-- Whenever a filter is built for the distinct keys of a part, it answers "maybe" for every one of
-- those keys: a key that is present is never reported absent.
pub build-no_false_negative :
    (keys : List ℤ) (blob : List ℕ)
    → build keys ≡ some blob
    → All (λ k. maybe_contains blob k ≡ true) keys
build-no_false_negative keys blob h =
    let made = build-Built keys h in All-maybe blob made.size keys made.tier made.blob_of made.hits
