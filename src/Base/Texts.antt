-- ===== src/Base/Texts.antt =====
-- Texts by their code points: a collation for the tests.
use Prim.Native.Nat.{ℕ}
use Prim.Native.Char.{code}
use Prim.Native.String.{String, [] as empty, ◌∷◌ as char_then}
use mathlib.Core.Path.{◌≡◌, refl, ap}
use mathlib.Core.List.{List, [], ◌∷◌}
use text.Mathlib.TextEquality.{Char-path}
use ukiel.Base.Sort.{Order, nat_order, list_order, order_of}

abbrev pub codes : String → List ℕ
codes empty = []
codes (char_then c s) = code c ∷ codes s

head_of : List ℕ → ℕ
head_of [] = 0
head_of (n ∷ ns) = n

tail_of : List ℕ → List ℕ
tail_of [] = []
tail_of (n ∷ ns) = ns

pub codes-apart : (s t : String) → codes s ≡ codes t → s ≡ t
codes-apart empty empty h = refl
codes-apart empty (char_then c t) h = cc
codes-apart (char_then c s) empty h = cc
codes-apart (char_then c s) (char_then d t) h = λ i.
    char_then (Char-path c d (unfold head_of in ap head_of h) i)
      (codes-apart s t (unfold tail_of in ap tail_of h) i)

instance abbrev pub by_codes : Order String
by_codes = order_of codes codes-apart
