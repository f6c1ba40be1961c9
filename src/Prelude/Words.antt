-- ===== src/Prelude/Words.antt =====
-- The parts of Go's `strings` and `strconv` that several packages use, on ASCII text.
pub mod Decimal
pub mod Split
mod Examples
use Prim.Native.Nat.{ℕ, zero, suc, ◌+◌, ◌*◌, ◌-◌, ◌/◌, ◌%◌, ◌^◌}
use mathlib.Core.Bool.{Bool, true, false, ◌&&◌, ◌||◌}
use mathlib.Core.Option.{Option, none, some}
use mathlib.Core.List.{List, [], ◌∷◌, ◌++◌}
use netsee.Prelude.Int.{ℤ, pos, negsuc}
use netsee.Prelude.Tests.{leb, ltb, ◌==◌, if◌then◌else◌}
use netsee.Prelude.Text.{Bytes, is_empty}

unfoldable pub is_space : ℕ → Bool
is_space c = c == 32 || (leb 9 c && leb c 13)

-- `strings.TrimSpace`
unfoldable pub trim_left : Bytes → Bytes
trim_left [] = []
trim_left (c ∷ s) = if is_space c then trim_left s else c ∷ s

unfoldable pub trim_right : Bytes → Bytes
trim_right [] = []
trim_right (c ∷ s) = let rest = trim_right s in if is_space c && is_empty rest then [] else c ∷ rest

unfoldable pub trim_space : Bytes → Bytes
trim_space s = trim_right (trim_left s)

-- `strings.Split(s, sep)` for a separator of one byte, with the piece that is being read.
unfoldable pub split_from : ℕ → Bytes → Bytes → List Bytes
split_from sep piece [] = piece ∷ []
split_from sep piece (c ∷ s) = elim (c == sep) [
  | true ↦ piece ∷ split_from sep [] s
  | false ↦ split_from sep (piece ++ (c ∷ [])) s
]

unfoldable pub split : ℕ → Bytes → List Bytes
split sep s = split_from sep [] s

-- `strconv.Itoa` of a number that is not negative, by the digits that are left.
unfoldable pub digits_of : ℕ → ℕ → Bytes
digits_of zero n = []
digits_of (suc k) n =
    let rest = digits_of k (n / 10) in (if ltb n 10 then [] else rest) ++ ((b'0' + n % 10) ∷ [])

unfoldable pub itoa : ℕ → Bytes
unfolding digits_of
itoa = digits_of 20

-- The value of decimal digits, behind those that were read; none at another byte.
unfoldable pub decimal_from : ℕ → Bytes → Option ℕ
decimal_from n [] = some n
decimal_from n (c ∷ s) = elim (leb b'0' c && leb c b'9') [
  | true ↦ decimal_from (n * 10 + (c - b'0')) s
  | false ↦ none
]

-- One digit or more.
unfoldable pub decimal : Bytes → Option ℕ
decimal [] = none
decimal (c ∷ s) = decimal_from 0 (c ∷ s)

-- `int64` has a range, which has one number more below zero.
unfoldable pub as_int : ℕ → Option ℤ
as_int n = if ltb n (2 ^ 63) then some (pos n) else none

unfoldable pub as_negative : ℕ → Option ℤ
as_negative zero = some (pos 0)
as_negative (suc n) = if ltb n (2 ^ 63) then some (negsuc n) else none

-- `strconv.Atoi`: a sign may stand before the digits; none for an error.
unfoldable pub strconv_atoi : Bytes → Option ℤ
strconv_atoi [] = none
strconv_atoi (c ∷ s) =
    if c == b'-'
    then elim (decimal s) [ none ↦ none | some n ↦ as_negative n ]
    else if c == b'+'
    then elim (decimal s) [ none ↦ none | some n ↦ as_int n ]
    else elim (decimal (c ∷ s)) [ none ↦ none | some n ↦ as_int n ]

-- The digits of `strconv.ParseUint`, which stops at the first number that is too large.
digits_value : ℕ → Bytes → Option ℕ
digits_value n [] = some n
digits_value n (c ∷ s) = elim (leb b'0' c && leb c b'9') [
  | true ↦
      let next = n * 10 + (c - b'0') in
      let rest = digits_value next s in if ltb next (2 ^ 64) then rest else some (2 ^ 64 - 1)
  | false ↦ none
]

-- The nearest number in the range of `int64`, with the sign.
clamped : Bool → ℕ → ℤ
clamped true zero = pos 0
clamped true (suc n) = if ltb n (2 ^ 63) then negsuc n else negsuc (2 ^ 63 - 1)
clamped false n = if ltb n (2 ^ 63) then pos n else pos (2 ^ 63 - 1)

unsigned_value : Bool → Bytes → ℤ
unfolding digits_value clamped
unsigned_value negative [] = pos 0
unsigned_value negative (c ∷ s) = elim (digits_value 0 (c ∷ s)) [
  | none ↦ pos 0
  | some n ↦ clamped negative n
]

-- The number that `strconv.Atoi` gives where its error is dropped.
unfoldable pub atoi_value : Bytes → ℤ
unfolding unsigned_value
atoi_value [] = pos 0
atoi_value (c ∷ s) =
    if c == b'-'
    then unsigned_value true s
    else if c == b'+'
    then unsigned_value false s
    else unsigned_value false (c ∷ s)
