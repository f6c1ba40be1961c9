-- ===== src/Proto/SessionId.antt =====
-- internal/proto/uuid.go: session and observation identifiers.
pub mod Laws
pub mod Fresh
pub mod Plain
mod Tests
use Prim.Native.Nat.{bit_and, bit_or}
use netsee.Prelude.{
  Bool, [], drop, false, get_or, if◌then◌else◌, leb, length, ltb, suc, take, true, zero, ℕ, ◌%◌,
  ◌&&◌, ◌++◌, ◌+◌, ◌-◌, ◌/◌, ◌==◌, ◌||◌, ◌∷◌,
}
use netsee.Prelude.Text.{Bytes}

unfoldable pub is_hex : ℕ → Bool
is_hex c = leb b'0' c && leb c b'9' || leb b'a' c && leb c b'f' || leb b'A' c && leb c b'F'

-- `case 8, 13, 18, 23` of the inner switch
pub is_dash_index : ℕ → Bool
is_dash_index i = i == 8 || i == 13 || i == 18 || i == 23

-- The loop of `case 36`; the list is what `id[i:]` holds.
valid_dashed : ℕ → Bytes → Bool
valid_dashed i [] = true
valid_dashed i (c ∷ cs) =
    let rest = valid_dashed (i + 1) cs in
    if is_dash_index i
    then (if c == b'-' then rest else false)
    else if is_hex c
    then rest
    else false

-- The loop of `case 32`
valid_bare : Bytes → Bool
valid_bare [] = true
valid_bare (c ∷ cs) = let rest = valid_bare cs in if is_hex c then rest else false

unfoldable pub valid_session_id : Bytes → Bool
unfolding is_dash_index valid_dashed valid_bare is_hex
valid_session_id id =
    if length id == 36 then valid_dashed 0 id else if length id == 32 then valid_bare id else false

-- `%x` of one nibble, and of a slice of bytes
hex_digit : ℕ → ℕ
hex_digit n = if ltb n 10 then b'0' + n else b'a' + (n - 10)

unfoldable pub hex_encode : Bytes → Bytes
unfolding hex_digit
hex_encode [] = []
hex_encode (b ∷ bs) = hex_digit (b / 16) ∷ hex_digit (b % 16) ∷ hex_encode bs

-- A write `b[i] = v`.
abbrev store_at : ℕ → ℕ → Bytes → Bytes
store_at i v [] = []
store_at zero v (x ∷ b) = v ∷ b
store_at (suc i) v (x ∷ b) = x ∷ store_at i v b

-- `b[lo:hi]`
abbrev cut : ℕ → ℕ → Bytes → Bytes
cut lo hi b = take (hi - lo) (drop lo b)

-- `b[6] = (b[6] & 0x0f) | 0x40; b[8] = (b[8] & 0x3f) | 0x80`
mark_version : Bytes → Bytes
mark_version b =
    let v = bit_or (bit_and (get_or b 6 0) 0x0f) 0x40 in
    let b' = store_at 6 v b in store_at 8 (bit_or (bit_and (get_or b' 8 0) 0x3f) 0x80) b'

-- `fmt.Sprintf("%x-%x-%x-%x-%x", b[0:4], b[4:6], b[6:8], b[8:10], b[10:16])`
format_uuid : Bytes → Bytes
format_uuid b =
    hex_encode (cut 0 4 b)
    ++ (b'-'
        ∷ (hex_encode (cut 4 6 b)
            ++ (b'-'
                ∷ (hex_encode (cut 6 8 b)
                    ++ (b'-' ∷ (hex_encode (cut 8 10 b) ++ (b'-' ∷ hex_encode (cut 10 16 b))))))))

-- The parameter is the array that `rand.Read` filled.
unfoldable pub new_id : Bytes → Bytes
unfolding hex_encode mark_version format_uuid
new_id random = format_uuid (mark_version random)
