-- ===== src/Prelude/Text.antt =====
-- Go strings: sequences of bytes, compared and joined as such.
use Prim.Native.Nat.{ℕ, ◌+◌, ◌/◌, ◌%◌}
use Prim.Native.Char.{code}
use Prim.Native.String.{String}
use mathlib.Core.Path.{◌≡◌}
use mathlib.Core.Logic.{◌↔◌, ◌≢◌, inl, inr}
use mathlib.Core.Bool.{Bool, true, false, ◌&&◌}
use mathlib.Core.List.{List, [], ◌∷◌, ◌++◌}
use native.Mathlib.Omega.{arith}
use netsee.Prelude.Tests.{ltb, ◌==◌, if◌then◌else◌, Eq, ==_iff, Bool-cases}

abbrev pub Bytes : Type 0
Bytes = List ℕ

-- The UTF-8 encoding of one code point.
encode_rune : ℕ → Bytes
encode_rune c =
    if ltb c 0x80
    then c ∷ []
    else if ltb c 0x800
    then (0xc0 + c / 64) ∷ (0x80 + c % 64) ∷ []
    else if ltb c 0x1_0000
    then (0xe0 + c / 4096) ∷ (0x80 + c / 64 % 64) ∷ (0x80 + c % 64) ∷ []
    else (0xf0 + c / 262144) ∷ (0x80 + c / 4096 % 64) ∷ (0x80 + c / 64 % 64) ∷ (0x80 + c % 64) ∷ []

-- A string literal of the source: its bytes.
unfoldable pub utf8 : String → Bytes
unfolding encode_rune
utf8 String.[] = []
utf8 (String.◌∷◌ c s) = encode_rune (code c) ++ utf8 s

-- `a == b` on strings
unfoldable pub bytes_beq : Bytes → Bytes → Bool
bytes_beq [] [] = true
bytes_beq (x ∷ xs) (y ∷ ys) = x == y && bytes_beq xs ys
bytes_beq _ _ = false

pub bytes_beq_iff : (a b : Bytes) → (bytes_beq a b ≡ true) ↔ (a ≡ b)
unfolding bytes_beq
bytes_beq_iff (x ∷ a) (y ∷ b) = ground (arith, bytes_beq_iff a b, ==_iff x y)
bytes_beq_iff _ _ = ground arith

instance abbrev pub bytes_eq : Eq Bytes
bytes_eq = record { beq = bytes_beq; beq_iff = bytes_beq_iff }

-- `s == ""`
abbrev pub is_empty : Bytes → Bool
is_empty [] = true
is_empty (c ∷ s) = false

-- `strings.HasPrefix(s, p)`
unfoldable pub has_prefix : Bytes → Bytes → Bool
has_prefix s [] = true
has_prefix [] (c ∷ p) = false
has_prefix (d ∷ s) (c ∷ p) = c == d && has_prefix s p

-- `strings.Join(l, sep)`
unfoldable pub join : Bytes → List Bytes → Bytes
join sep [] = []
join sep (s ∷ []) = s
join sep (s ∷ t ∷ l) = s ++ (sep ++ join sep (t ∷ l))

pub bytes_ne : (s t : Bytes) → bytes_beq s t ≡ false → s ≢ t
bytes_ne s t h e = let same : bytes_beq s t ≡ true = (bytes_beq_iff s t).1 e in cc

pub beq_ne : (s t : Bytes) → s ≢ t → bytes_beq s t ≡ false
beq_ne s t ne = elim (Bool-cases (bytes_beq s t)) [
  | inl same ↦ absurd (ne ((bytes_beq_iff s t).0 same))
  | inr other ↦ other
]
