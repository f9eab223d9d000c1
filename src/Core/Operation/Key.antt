-- ===== src/Core/Operation/Key.antt =====
-- The keys of operation.rs: their length and their domain.
use Prim.Native.Char.{Char, code}
use Prim.Native.String.{[] as empty, ◌∷◌ as char_then}
use ukiel.Base.{
  ℕ, zero, suc, ◌+◌, ◌*◌, ◌/◌, ◌%◌, ◌≤◌, ◌<◌, ◌≡◌, refl, ap, String, List, [], ◌∷◌, length, arith,
  ◌==◌, nat_eq, false,
}
use ukiel.Core.Canonical.{utf8, utf8_char}
use ukiel.Base.Result.{ok}
use ukiel.Core.Commit.{OperationIdentity}
use ukiel.Core.Operation.Identify.{Intent, of_mv, of_ingest, of_compaction, of_delete_key, name}
use ukiel.Core.Operation.{pick, digit, hex, decimal, join, operation_key, until_slash, finish}

-- The bytes of a text in memory.
abbrev pub size : String → ℕ
size s = length (utf8 s)

abbrev Ascii : String → Type 0
Ascii empty = Unit
Ascii (char_then c s) = (code c < 128) × Ascii s

pick-Ascii : (n : ℕ) (c : Char) (s : String) → code c < 128 → Ascii s → code (pick n c s) < 128
pick-Ascii n c empty a b = a
pick-Ascii zero c (char_then d s) a b = a
pick-Ascii (suc n) c (char_then d s) a b = pick-Ascii n d s b.0 b.1

digit-ascii : (n : ℕ) → code (digit n) < 128
digit-ascii n = pick-Ascii n "0" "123456789abcdef" (omega arith) (omega arith)

size-digit : (n : ℕ) (s : String) → size (char_then (digit n) s) ≡ suc (size s)
size-digit n s = ground (arith, digit-ascii n)

size-hex : (bytes : List ℕ) → size (hex bytes) ≡ 2 * length bytes
size-hex [] = refl
size-hex (b ∷ bytes) = omega (
  arith,
  size-hex bytes,
  size-digit (b / 16) (char_then (digit (b % 16)) (hex bytes)),
  size-digit (b % 16) (hex bytes),
)

size-decimal : (digits n : ℕ) (after : String) → size (decimal digits n after) ≤ digits + size after
size-decimal zero n after = omega arith
size-decimal (suc digits) n after = ground (
  arith,
  size-decimal digits (n / 10) (char_then (digit (n % 10)) after),
  size-digit (n % 10) after,
  size-digit n after,
)

char_size : (c : ℕ) (xs : List ℕ) → length (utf8_char c xs) ≡ length (utf8_char c []) + length xs
char_size c xs = ground arith

size-append : (s t : String) → size (join s t) ≡ size s + size t
size-append empty t = omega arith
size-append (char_then c s) t =
    omega
      (arith, size-append s t, char_size (code c) (utf8 (join s t)), char_size (code c) (utf8 s))

pub key_size :
    (d : String) (version : ℕ) (fingerprint : List ℕ)
    → size (operation_key d version fingerprint) ≤ 19 + size d + 2 * length fingerprint
key_size d version fingerprint = omega (
  arith,
  size-append d (join "/v" (decimal 10 version (char_then "/" (hex fingerprint)))),
  size-decimal 10 version (char_then "/" (hex fingerprint)),
  size-hex fingerprint,
)

-- A key whose domain has no slash tells its domain.
abbrev pub Unslashed : String → Type 0
Unslashed empty = Unit
Unslashed (char_then c s) = ((code c == 47) ≡ false) × Unslashed s

pub until_slash-join :
    (d rest : String) → Unslashed d → until_slash (join d (char_then "/" rest)) ≡ d
until_slash-join empty rest u = refl
until_slash-join (char_then c s) rest u = rw u.0 (ap (char_then c) (until_slash-join s rest u.1))

pub name-Unslashed : (i : Intent) → Unslashed (name i)
name-Unslashed (of_mv i) = ground arith
name-Unslashed (of_ingest ranges version) = ground arith
name-Unslashed (of_compaction i) = ground arith
name-Unslashed (of_delete_key i) = ground arith

pub size-name : (i : Intent) → size (name i) ≤ 10
size-name (of_mv i) = omega arith
size-name (of_ingest ranges version) = omega arith
size-name (of_compaction i) = omega arith
size-name (of_delete_key i) = omega arith

module _ (hash : List ℕ → List ℕ) (ht : ℕ) where
  pub finish-key :
      (d : String) (b : List ℕ → List ℕ) (a : OperationIdentity)
      → finish hash ht d 1 b ≡ ok a
      → a.key ≡ operation_key d 1 a.fingerprint
  unfolding finish
  finish-key d b a h = ground arith
