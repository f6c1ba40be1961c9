-- ===== src/Prelude/Words/Decimal.antt =====
-- `strconv.Atoi` reads what `strconv.Itoa` writes.
use Prim.Native.Nat.{ℕ, zero, suc, ◌+◌, ◌-◌, ◌*◌, ◌/◌, ◌%◌, ◌^◌, ◌≤◌, ◌<◌}
use mathlib.Core.Path.{◌≡◌, refl, ap, ◌∙◌}
use mathlib.Core.Logic.{inl, inr}
use mathlib.Core.Bool.{true, false, ◌&&◌}
use mathlib.Core.Option.{some}
use mathlib.Core.List.{[], ◌∷◌, ◌++◌}
use native.Mathlib.Nat.{pow-suc}
use native.Mathlib.Omega.{arith}
use netsee.Prelude.Int.{pos}
use netsee.Prelude.Lists.{All, All-append}
use netsee.Prelude.Options.{◌>>=◌}
use netsee.Prelude.Tests.{Bool-cases, leb, ltb, ◌==◌, if◌then◌else◌}
use netsee.Prelude.Text.{Bytes}
use netsee.Prelude.Words.{as_int, decimal, decimal_from, digits_of, itoa, strconv_atoi}

abbrev pub IsDigit : ℕ → Type 0
IsDigit c = (b'0' ≤ c) × (c ≤ b'9')

decimal_from-append :
    (m : ℕ) (a b : Bytes) → decimal_from m (a ++ b) ≡ (decimal_from m a >>= λ v. decimal_from v b)
unfolding decimal_from
decimal_from-append m [] b = refl
decimal_from-append m (c ∷ a) b = elim (Bool-cases (leb b'0' c && leb c b'9')) [
  | inl digit ↦ rw (decimal_from, digit) (decimal_from-append (m * 10 + (c - b'0')) a b)
  | inr other ↦ rw (decimal_from, other) refl
]

pub digits_of-IsDigit : (k n : ℕ) → All IsDigit (digits_of k n)
unfolding digits_of
digits_of-IsDigit zero n = tt
digits_of-IsDigit (suc k) n = elim (Bool-cases (ltb n 10)) [
  | inl short ↦ rw short ((omega arith, omega arith), tt)
  | inr long ↦ rw long (
      All-append IsDigit (digits_of k (n / 10)) _ (digits_of-IsDigit k (n / 10))
        ((omega arith, omega arith), tt))
]

decimal_from-digit : (m d : ℕ) → d ≤ 9 → decimal_from m ((b'0' + d) ∷ []) ≡ some (m * 10 + d)
unfolding decimal_from
decimal_from-digit m d h =
    let digit : (leb b'0' (b'0' + d) && leb (b'0' + d) b'9') ≡ true = ground arith in
    rw (decimal_from, digit) (ap some (omega arith))

decimal_from-digits_of : (k n : ℕ) → n < 10 ^ k → decimal_from 0 (digits_of k n) ≡ some n
unfolding decimal_from digits_of
decimal_from-digits_of zero n h = ap some (omega (arith, h))
decimal_from-digits_of (suc k) n h = elim (Bool-cases (ltb n 10)) [
  | inl short ↦
      rw (digits_of, short) (decimal_from-digit 0 (n % 10) (omega arith) ∙ ap some (ground arith))
  | inr long ↦
      rw (digits_of, long)
        (decimal_from-append 0 (digits_of k (n / 10)) _
          ∙ rw (decimal_from-digits_of k (n / 10) (omega (arith, rw pow-suc at h)))
              (decimal_from-digit (n / 10) (n % 10) (omega arith) ∙ ap some (omega arith)))
]

-- A text that ends in a byte has a first byte.
snoc_cons : (s : Bytes) (d : ℕ) → (c : ℕ) × (t : Bytes) × (s ++ (d ∷ []) ≡ c ∷ t)
snoc_cons [] d = (d, [], refl)
snoc_cons (c ∷ s) d = (c, s ++ (d ∷ []), refl)

pub itoa_cons : (n : ℕ) → (c : ℕ) × (t : Bytes) × (itoa n ≡ c ∷ t)
unfolding itoa digits_of
itoa_cons n = snoc_cons (if ltb n 10 then [] else digits_of 19 (n / 10)) (b'0' + n % 10)

-- Digits without a sign.
atoi_digits :
    (c n : ℕ) (t : Bytes)
    → IsDigit c
    → decimal_from 0 (c ∷ t) ≡ some n
    → n < 2 ^ 63
    → strconv_atoi (c ∷ t) ≡ some (pos n)
unfolding strconv_atoi decimal as_int
atoi_digits c n t digit read small =
    let minus : (c == b'-') ≡ false = ground arith in
    let plus : (c == b'+') ≡ false = ground arith in
    let fits : ltb n (2 ^ 63) ≡ true = ground arith in
    rw (strconv_atoi, minus, plus, decimal, read, as_int, fits) refl

pub strconv_atoi-itoa : (n : ℕ) → n < 2 ^ 63 → strconv_atoi (itoa n) ≡ some (pos n)
unfolding itoa
strconv_atoi-itoa n small =
    let (c, t, shape) = itoa_cons n in
    let digits : All IsDigit (c ∷ t) = rw shape at (digits_of-IsDigit 20 n) in
    let read : decimal_from 0 (c ∷ t) ≡ some n =
      rw shape at (decimal_from-digits_of 20 n (omega arith)) in
    rw shape (atoi_digits c n t digits.0 read small)
