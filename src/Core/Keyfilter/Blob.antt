-- ===== src/Core/Keyfilter/Blob.antt =====
-- keyfilter.rs: what writing probes into a blob keeps, and where the probes of a key lie.
use native.Mathlib.Nat.{mod-lt}
use ukiel.Base.{
  ℕ, zero, suc, ◌+◌, ◌*◌, ◌%◌, ◌^◌, ◌<◌, ◌≡◌, ◌∙◌, refl, true, List, [], ◌∷◌, arith, nat_eq, length,
  All,
}
use ukiel.Base.Int.{ℤ}
use ukiel.Core.Keyfilter.{
  Probe, byte_at, or_byte, probe_hits, set_probes, probes, probe_at, bit_index, key_filter_v1,
}
use ukiel.Core.Keyfilter.Bits.{set_bit, set_bit_keeps}

-- The probe reads one bit of a byte behind the version byte, inside a blob of `n` bytes.
pub record Fits (n : ℕ) (p : Probe) : Type 0 where
  pub bit : ℕ
  pub small : bit < 8
  pub masked : p.mask ≡ 2 ^ bit
  pub behind : 0 < p.byte
  pub inside : p.byte < n

-- A blob of `n` bytes of version 1.
pub record IsBlob (n : ℕ) (blob : List ℕ) : Type 0 where
  pub sized : length blob ≡ n
  pub bytes : All (λ x. x < 256) blob
  pub version : byte_at blob 0 ≡ key_filter_v1

pub length-or_byte : (xs : List ℕ) (i m : ℕ) → length (or_byte xs i m) ≡ length xs
length-or_byte [] i m = refl
length-or_byte (x ∷ xs) zero m = refl
length-or_byte (x ∷ xs) (suc i) m = omega (arith, length-or_byte xs i m)

bytes-or_byte :
    (xs : List ℕ) (i j : ℕ)
    → j < 8
    → All (λ x. x < 256) xs
    → All (λ x. x < 256) (or_byte xs i (2 ^ j))
bytes-or_byte [] i j h a = tt
bytes-or_byte (x ∷ xs) zero j h a = ((set_bit x j a.0 h).0, a.1)
bytes-or_byte (x ∷ xs) (suc i) j h a = (a.0, bytes-or_byte xs i j h a.1)

hit_self :
    (xs : List ℕ) (i j : ℕ)
    → i < length xs
    → j < 8
    → All (λ x. x < 256) xs
    → probe_hits (or_byte xs i (2 ^ j)) (record { byte = i; mask = 2 ^ j }) ≡ true
hit_self [] i j lt h a = absurd (omega arith)
hit_self (x ∷ xs) zero j lt h a = (set_bit x j a.0 h).1
hit_self (x ∷ xs) (suc i) j lt h a = hit_self xs i j (omega arith) h a.1

hit_keep :
    (xs : List ℕ) (i j b k : ℕ)
    → j < 8
    → k < 8
    → All (λ x. x < 256) xs
    → probe_hits xs (record { byte = b; mask = 2 ^ k }) ≡ true
    → probe_hits (or_byte xs i (2 ^ j)) (record { byte = b; mask = 2 ^ k }) ≡ true
hit_keep [] i j b k hj hk a h = h
hit_keep (x ∷ xs) zero j zero k hj hk a h = set_bit_keeps x j k a.0 hj hk h
hit_keep (x ∷ xs) zero j (suc b) k hj hk a h = h
hit_keep (x ∷ xs) (suc i) j zero k hj hk a h = h
hit_keep (x ∷ xs) (suc i) j (suc b) k hj hk a h = hit_keep xs i j b k hj hk a.1 h

version-or_byte : (xs : List ℕ) (i m : ℕ) → 0 < i → byte_at (or_byte xs i m) 0 ≡ byte_at xs 0
version-or_byte [] i m h = refl
version-or_byte (x ∷ xs) zero m h = absurd (omega arith)
version-or_byte (x ∷ xs) (suc i) m h = refl

or_byte-IsBlob :
    (n : ℕ) (blob : List ℕ) (p : Probe)
    → Fits n p
    → IsBlob n blob
    → IsBlob n (or_byte blob p.byte p.mask)
or_byte-IsBlob n blob p f b = record {
  sized = omega (arith, length-or_byte blob p.byte p.mask, b.sized);
  bytes = rw f.masked (bytes-or_byte blob p.byte f.bit f.small b.bytes);
  version = version-or_byte blob p.byte p.mask f.behind ∙ b.version;
}

hit_after_self :
    (n : ℕ) (blob : List ℕ) (p : Probe)
    → Fits n p
    → IsBlob n blob
    → probe_hits (or_byte blob p.byte p.mask) p ≡ true
hit_after_self n blob p f b =
    rw f.masked (hit_self blob p.byte f.bit (omega (arith, b.sized, f.inside)) f.small b.bytes)

hit_after :
    (n : ℕ) (blob : List ℕ) (p q : Probe)
    → Fits n p
    → Fits n q
    → IsBlob n blob
    → probe_hits blob q ≡ true
    → probe_hits (or_byte blob p.byte p.mask) q ≡ true
hit_after n blob p q f g b h =
    rw (f.masked, g.masked)
      (hit_keep blob p.byte f.bit q.byte g.bit f.small g.small b.bytes (rw g.masked at h))

pub set_probes-IsBlob :
    (n : ℕ) (ps : List Probe) (blob : List ℕ)
    → All (Fits n) ps
    → IsBlob n blob
    → IsBlob n (set_probes ps blob)
unfolding set_probes
set_probes-IsBlob n [] blob fs b = b
set_probes-IsBlob n (p ∷ ps) blob fs b =
    set_probes-IsBlob n ps (or_byte blob p.byte p.mask) fs.1 (or_byte-IsBlob n blob p fs.0 b)

pub set_probes_keep :
    (n : ℕ) (ps : List Probe) (blob : List ℕ) (q : Probe)
    → All (Fits n) ps
    → Fits n q
    → IsBlob n blob
    → probe_hits blob q ≡ true
    → probe_hits (set_probes ps blob) q ≡ true
unfolding set_probes
set_probes_keep n [] blob q fs g b h = h
set_probes_keep n (p ∷ ps) blob q fs g b h =
    set_probes_keep n ps (or_byte blob p.byte p.mask) q fs.1 g (or_byte-IsBlob n blob p fs.0 b)
      (hit_after n blob p q fs.0 g b h)

pub All-set :
    (n : ℕ) (ps : List Probe) (blob : List ℕ)
    → All (Fits n) ps
    → IsBlob n blob
    → All (λ q. probe_hits (set_probes ps blob) q ≡ true) ps
unfolding set_probes
All-set n [] blob fs b = tt
All-set n (p ∷ ps) blob fs b =
    let b' = or_byte-IsBlob n blob p fs.0 b in
    (
      set_probes_keep n ps (or_byte blob p.byte p.mask) p fs.1 fs.0 b'
          (hit_after_self n blob p fs.0 b),
      All-set n ps (or_byte blob p.byte p.mask) fs.1 b',
    )

-- The probes of a key in `8 * m` bits fit a blob of `1 + m` bytes.
pub probe_at-Fits : (m bit : ℕ) → bit < m * 8 → Fits (1 + m) (probe_at bit)
unfolding probe_at
probe_at-Fits m bit h = record {
  bit = bit % 8;
  small = omega arith;
  masked = refl;
  behind = omega arith;
  inside = omega arith;
}

pub bit_index-lt : (key : ℤ) (ab : ℕ × ℕ) (bits : ℕ) → 0 < bits → bit_index key ab bits < bits
unfolding bit_index
bit_index-lt key ab bits h = mod-lt _ h

pub probes-Fits : (key : ℤ) (m : ℕ) → 0 < m → All (Fits (1 + m)) (probes key (m * 8))
unfolding probes
probes-Fits key m h = (at _, (at _, (at _, (at _, tt))))
  where
    at : (ab : ℕ × ℕ) → Fits (1 + m) (probe_at (bit_index key ab (m * 8)))
    at ab = probe_at-Fits m _ (bit_index-lt key ab (m * 8) (omega arith))
