-- ===== src/Report/Text/Format.antt =====
-- internal/report/text.go: its small helpers, and the verbs of `fmt` that it uses.
use netsee.Prelude.{
  Bool, List, [], arith, if◌then◌else◌, leb, length, ltb, refl, suc, take, zero, ℕ, ◌&&◌, ◌++◌, ◌+◌,
  ◌-◌, ◌∷◌, ◌≡◌, ◌≤◌,
}
use netsee.Prelude.Int.{ℤ}
use netsee.Prelude.Text.{Bytes, is_empty, join, utf8}
use netsee.Prelude.Words.{itoa}
use netsee.Proto.Types.{Header}
use netsee.Report.Items.{ItemMeta}

-- The parts of one formatted line.
unfoldable pub cat : List Bytes → Bytes
cat [] = []
cat (s ∷ l) = s ++ cat l

-- `%v` of a bool
pub bool_text : Bool → Bytes
bool_text b = if b then utf8 "true" else utf8 "false"

-- `utf8.RuneCountInString` on valid UTF-8: the bytes that continue no rune.
pub rune_count : Bytes → ℕ
rune_count [] = 0
rune_count (c ∷ s) = (if leb 128 c && ltb c 192 then 0 else 1) + rune_count s

spaces : ℕ → Bytes
spaces zero = []
spaces (suc n) = b' ' ∷ spaces n

-- `%-12s` and the like: padded on the right, by runes.
pub pad_right : ℕ → Bytes → Bytes
unfolding spaces
pad_right width s = s ++ spaces (width - rune_count s)

-- `shortID`
pub short_id : Bytes → Bytes
short_id id = if ltb 8 (length id) then take 8 id else id

abbrev pub na : Bytes
na = utf8 "n/a"

-- `joinOrNA`
unfoldable pub join_or_na : List Bytes → Bytes
join_or_na [] = na
join_or_na (v ∷ vals) = join (utf8 ", ") (v ∷ vals)

-- `orNA`
pub or_na : Bytes → Bytes
or_na s = if is_empty s then na else s

-- The texts of float64 values: `%.1f` of the seconds in a number of nanoseconds, `%.2f` of the
-- milliseconds in a number of microseconds.
pub record Floats : Type 0 where
  pub seconds : ℤ → Bytes
  pub millis : ℕ → Bytes

-- The lines under an `if`.
abbrev pub when : Bool → List Bytes → List Bytes
when b lines = if b then lines else []

unfoldable pub bullets : Bytes → List Bytes → List Bytes
bullets lead [] = []
bullets lead (s ∷ l) = (lead ++ s) ∷ bullets lead l

-- A heading that ends in the observation point.
pub observed : Bytes → ItemMeta → Bytes
observed title meta = cat (title ∷ utf8 " [观测点: " ∷ meta.observed_by ∷ utf8 "]" ∷ [])

pub header_lines : Bytes → List Header → List Bytes
header_lines lead [] = []
header_lines lead (h ∷ headers) =
    cat (lead ∷ h.key ∷ utf8 ": " ∷ h.value ∷ []) ∷ header_lines lead headers

-- The options of a TCP connection, as both sections on them write them.
pub tcp_text : ℕ → Bool → Bool → Bool → Bool → List Bytes
tcp_text mss wscale sack ts ecn =
    utf8 "mss="
    ∷ itoa mss
    ∷ utf8 " wscale="
    ∷ bool_text wscale
    ∷ utf8 " sack="
    ∷ bool_text sack
    ∷ utf8 " ts="
    ∷ bool_text ts
    ∷ utf8 " ecn="
    ∷ bool_text ecn
    ∷ []

rune_count-append : (s t : Bytes) → rune_count (s ++ t) ≡ rune_count s + rune_count t
unfolding rune_count
rune_count-append [] t = omega arith
rune_count-append (c ∷ s) t = omega (arith, rune_count-append s t)

rune_count-spaces : (n : ℕ) → rune_count (spaces n) ≡ n
unfolding rune_count spaces
rune_count-spaces zero = refl
rune_count-spaces (suc n) = omega (arith, rune_count-spaces n)

-- A padded text is as wide as was asked for, unless the text is wider.
pub rune_count-pad_right :
    (width : ℕ) (s : Bytes) → rune_count s ≤ width → rune_count (pad_right width s) ≡ width
unfolding pad_right
rune_count-pad_right width s h = omega (
  arith,
  rune_count-append s (spaces (width - rune_count s)),
  rune_count-spaces (width - rune_count s),
)
