-- ===== src/Proto/SessionId/Fresh.antt =====
-- The identifiers that `NewID` writes.
use Prim.Native.Nat.{bit_and, bit_or}
use native.Mathlib.Nat.{add-zero}
use netsee.Prelude.{
  All, Bool, [], ap, append-nil, arith, drop, false, get_or, length, length-append, length-drop,
  length-take, ltb, refl, suc, take, true, zero, ℕ, ◌%◌, ◌&&◌, ◌*◌, ◌++◌, ◌+◌, ◌-◌, ◌/◌, ◌<◌, ◌∙◌,
  ◌∷◌, ◌≡◌, ◌≤◌,
}
use netsee.Prelude.Text.{Bytes}
use netsee.Proto.SessionId.{
  cut, format_uuid, hex_digit, hex_encode, is_dash_index, is_hex, mark_version, new_id, store_at,
  valid_dashed, valid_session_id,
}

-- Hexadecimal text away from the dashes is passed over.
valid_dashed-hex :
    (i : ℕ) (xs ys : Bytes)
    → All (λ c. is_hex c ≡ true) xs
    → ((j : ℕ) → i ≤ j → j < i + length xs → is_dash_index j ≡ false)
    → valid_dashed i (xs ++ ys) ≡ valid_dashed (i + length xs) ys
unfolding valid_dashed
valid_dashed-hex i [] ys h d = ap (λ k. valid_dashed k ys) (omega arith)
valid_dashed-hex i (x ∷ xs) ys h d =
    rw (d i (omega arith) (omega arith), h.0)
      (valid_dashed-hex (i + 1) xs ys h.1 (λ j lo hi. d j (omega arith) (omega arith))
        ∙ ap (λ k. valid_dashed k ys) (omega arith))

hex_digit-is_hex : (n : ℕ) → n < 16 → is_hex (hex_digit n) ≡ true
unfolding is_hex hex_digit
hex_digit-is_hex n h = ground arith

hex_encode-is_hex :
    (bs : Bytes) → All (λ b. b < 256) bs → All (λ c. is_hex c ≡ true) (hex_encode bs)
unfolding hex_encode
hex_encode-is_hex [] h = tt
hex_encode-is_hex (b ∷ bs) h = (
  hex_digit-is_hex (b / 16) (omega arith),
  (hex_digit-is_hex (b % 16) (omega arith), hex_encode-is_hex bs h.1),
)

pub length-hex_encode : (bs : Bytes) → length (hex_encode bs) ≡ 2 * length bs
unfolding hex_encode
length-hex_encode [] = omega arith
length-hex_encode (b ∷ bs) = omega (arith, length-hex_encode bs)

hex_encode_segment :
    (i k : ℕ) (bs ys : Bytes)
    → All (λ b. b < 256) bs
    → i + 2 * length bs ≡ k
    → ((j : ℕ) → i ≤ j → j < k → is_dash_index j ≡ false)
    → is_dash_index k ≡ true
    → valid_dashed i (hex_encode bs ++ (b'-' ∷ ys)) ≡ valid_dashed (k + 1) ys
unfolding valid_dashed
hex_encode_segment i k bs ys h e d t =
    let end : i + length (hex_encode bs) ≡ k = omega (arith, length-hex_encode bs) in
    valid_dashed-hex i (hex_encode bs) (b'-' ∷ ys) (hex_encode-is_hex bs h)
      (λ j lo hi. d j lo (omega arith))
    ∙ rw (end, t)

-- Masks on a byte stay in a byte, and fix the bits that the masks name: checked value by value.
each_of : (ℕ → Bool) → ℕ → ℕ → Bool
each_of test start zero = true
each_of test start (suc count) = let rest = each_of test (start + 1) count in test start && rest

each_of_at :
    (test : ℕ → Bool) (count start offset : ℕ)
    → offset < count
    → each_of test start count ≡ true
    → test (start + offset) ≡ true
unfolding each_of
each_of_at test zero start offset small h = absurd (omega arith)
each_of_at test (suc count) start zero small h = rw add-zero (ground arith)
each_of_at test (suc count) start (suc offset) small h =
    let shifted : start + 1 + offset ≡ start + suc offset = omega arith in
    rw (← shifted) (each_of_at test count (start + 1) offset (omega arith) (ground arith))

stays_byte :
    (mask set : ℕ)
    → each_of (λ b. ltb (bit_or (bit_and b mask) set) 256) 0 256 ≡ true
    → (c : ℕ) → c < 256
    → bit_or (bit_and c mask) set < 256
stays_byte mask set table c small =
    let at = each_of_at (λ b. ltb (bit_or (bit_and b mask) set) 256) 256 0 c small table in
    ground arith

version_byte : (c : ℕ) → c < 256 → bit_or (bit_and c 0x0f) 0x40 < 256
unfolding each_of
version_byte = stays_byte 0x0f 0x40 refl

variant_byte : (c : ℕ) → c < 256 → bit_or (bit_and c 0x3f) 0x80 < 256
unfolding each_of
variant_byte = stays_byte 0x3f 0x80 refl

abbrev IsByte : ℕ → Type 0
IsByte b = b < 256

get_or-IsByte : (b : Bytes) (i : ℕ) → All IsByte b → IsByte (get_or b i 0)
get_or-IsByte [] i h = omega arith
get_or-IsByte (x ∷ b) zero h = h.0
get_or-IsByte (x ∷ b) (suc i) h = get_or-IsByte b i h.1

store_at-IsByte : (i v : ℕ) (b : Bytes) → IsByte v → All IsByte b → All IsByte (store_at i v b)
store_at-IsByte i v [] hv h = tt
store_at-IsByte zero v (x ∷ b) hv h = (hv, h.1)
store_at-IsByte (suc i) v (x ∷ b) hv h = (h.0, store_at-IsByte i v b hv h.1)

length-store_at : (i v : ℕ) (b : Bytes) → length (store_at i v b) ≡ length b
length-store_at i v [] = refl
length-store_at zero v (x ∷ b) = refl
length-store_at (suc i) v (x ∷ b) = ap suc (length-store_at i v b)

take-IsByte : (n : ℕ) (b : Bytes) → All IsByte b → All IsByte (take n b)
take-IsByte zero b h = tt
take-IsByte (suc n) [] h = tt
take-IsByte (suc n) (x ∷ b) h = (h.0, take-IsByte n b h.1)

drop-IsByte : (n : ℕ) (b : Bytes) → All IsByte b → All IsByte (drop n b)
drop-IsByte zero b h = h
drop-IsByte (suc n) [] h = tt
drop-IsByte (suc n) (x ∷ b) h = drop-IsByte n b h.1

cut-IsByte : (lo hi : ℕ) (b : Bytes) → All IsByte b → All IsByte (cut lo hi b)
cut-IsByte lo hi b h = take-IsByte (hi - lo) (drop lo b) (drop-IsByte lo b h)

length-cut : (lo hi : ℕ) (b : Bytes) → lo ≤ hi → hi ≤ length b → length (cut lo hi b) ≡ hi - lo
length-cut lo hi b p q = length-take (hi - lo) (drop lo b) (omega (arith, length-drop lo b))

mark_version-IsByte : (b : Bytes) → All IsByte b → All IsByte (mark_version b)
unfolding mark_version
mark_version-IsByte b h =
    let v = bit_or (bit_and (get_or b 6 0) 0x0f) 0x40 in
    let first = store_at-IsByte 6 v b (version_byte _ (get_or-IsByte b 6 h)) h in
    store_at-IsByte 8 _ (store_at 6 v b) (variant_byte _ (get_or-IsByte (store_at 6 v b) 8 first))
      first

length-mark_version : (b : Bytes) → length (mark_version b) ≡ length b
unfolding mark_version
length-mark_version b = length-store_at 8 _ _ ∙ length-store_at 6 _ b

-- The text behind the dash at `k`, over a field of bytes that ends there.
module _ (b : Bytes) (n : length b ≡ 16) (h : All IsByte b) where
  field_passes :
      (i lo hi k : ℕ) (ys : Bytes)
      → lo ≤ hi
      → hi ≤ 16
      → i + 2 * (hi - lo) ≡ k
      → ((j : ℕ) → i ≤ j → j < k → is_dash_index j ≡ false)
      → is_dash_index k ≡ true
      → valid_dashed i (hex_encode (cut lo hi b) ++ (b'-' ∷ ys)) ≡ valid_dashed (k + 1) ys
  field_passes i lo hi k ys p q e =
      hex_encode_segment i k (cut lo hi b) ys (cut-IsByte lo hi b h)
        (omega (arith, length-cut lo hi b p (omega arith)))

  node_passes : valid_dashed 24 (hex_encode (cut 10 16 b)) ≡ true
  unfolding valid_dashed is_dash_index
  node_passes =
      let size : 24 + length (hex_encode (cut 10 16 b)) ≡ 36 =
        omega (
          arith,
          length-hex_encode (cut 10 16 b),
          length-cut 10 16 b (omega arith) (omega arith),
        ) in
      let passed =
        valid_dashed-hex 24 (hex_encode (cut 10 16 b)) []
          (hex_encode-is_hex (cut 10 16 b) (cut-IsByte 10 16 b h)) (λ j lo hi. ground arith) in
      rw append-nil at passed

  fields_pass : valid_dashed 0 (format_uuid b) ≡ true
  unfolding is_dash_index format_uuid
  fields_pass =
      field_passes 0 0 4 8 _ (omega arith) (omega arith) refl (λ j lo hi. ground arith) refl
      ∙ field_passes 9 4 6 13 _ (omega arith) (omega arith) refl (λ j lo hi. ground arith) refl
      ∙ field_passes 14 6 8 18 _ (omega arith) (omega arith) refl (λ j lo hi. ground arith) refl
      ∙ field_passes 19 8 10 23 _ (omega arith) (omega arith) refl (λ j lo hi. ground arith) refl
      ∙ node_passes

  length_fields :
      (lo hi : ℕ) → lo ≤ hi → hi ≤ 16 → length (hex_encode (cut lo hi b)) ≡ 2 * (hi - lo)
  length_fields lo hi p q =
      omega (arith, length-hex_encode (cut lo hi b), length-cut lo hi b p (omega arith))

  length-format_uuid : length (format_uuid b) ≡ 36
  unfolding format_uuid
  length-format_uuid = simp length-append (
      omega (
        arith,
        length_fields 0 4 (omega arith) (omega arith),
        length_fields 4 6 (omega arith) (omega arith),
        length_fields 6 8 (omega arith) (omega arith),
        length_fields 8 10 (omega arith) (omega arith),
        length_fields 10 16 (omega arith) (omega arith),
      ))

-- Every identifier that `NewID` makes of 16 random bytes is admitted by `ValidSessionID`.
pub new_id-IsValid :
    (random : Bytes)
    → length random ≡ 16
    → All (λ b. b < 256) random
    → valid_session_id (new_id random) ≡ true
unfolding new_id valid_session_id
new_id-IsValid random n h =
    let b = mark_version random in
    let size : length b ≡ 16 = length-mark_version random ∙ n in
    let bytes = mark_version-IsByte random h in
    rw (length-format_uuid b size bytes) (fields_pass b size bytes)
