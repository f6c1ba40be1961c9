-- ===== src/Proto/SessionId/Plain.antt =====
-- Which bytes an identifier has.
use netsee.Prelude.{
  ==_iff, All, Bool, Bool-cases, [], arith, false, inl, inr, length, refl, true, ℕ, ◌+◌, ◌==◌, ◌||◌,
  ◌∷◌, ◌≡◌,
}
use netsee.Prelude.Hosts.{has_byte}
use netsee.Prelude.Text.{Bytes}
use netsee.Proto.SessionId.{is_hex, valid_bare, valid_dashed, valid_session_id}

-- A hexadecimal digit or a dash.
unfoldable pub is_id_byte : ℕ → Bool
is_id_byte c = is_hex c || c == b'-'

valid_dashed-bytes :
    (i : ℕ) (id : Bytes) → valid_dashed i id ≡ true → All (λ c. is_id_byte c ≡ true) id
unfolding valid_dashed is_id_byte
valid_dashed-bytes i [] h = tt
valid_dashed-bytes i (c ∷ id) h =
    (ground (arith, h), valid_dashed-bytes (i + 1) id (ground (arith, h)))

valid_bare-bytes : (id : Bytes) → valid_bare id ≡ true → All (λ c. is_id_byte c ≡ true) id
unfolding valid_bare is_id_byte
valid_bare-bytes [] h = tt
valid_bare-bytes (c ∷ id) h = (ground (arith, h), valid_bare-bytes id (ground (arith, h)))

valid-bytes : (id : Bytes) → valid_session_id id ≡ true → All (λ c. is_id_byte c ≡ true) id
unfolding valid_session_id
valid-bytes id h = elim (Bool-cases (length id == 36)) [
  | inl long ↦ valid_dashed-bytes 0 id (rw long at h)
  | inr other ↦ valid_bare-bytes id (ground (arith, (rw other at h)))
]

has_byte-foreign :
    (c : ℕ) (s : Bytes)
    → is_id_byte c ≡ false
    → All (λ d. is_id_byte d ≡ true) s
    → has_byte c s ≡ false
unfolding has_byte
has_byte-foreign c [] h k = refl
has_byte-foreign c (d ∷ s) h (e, k) = elim (Bool-cases (d == c)) [
  | inl same ↦
      let there : d ≡ c = (==_iff d c).0 same in
      let clash : is_id_byte c ≡ true = rw there at e in absurd cc
  | inr other ↦ rw other (has_byte-foreign c s h k)
]

-- No byte but digits and dashes stands in an identifier.
pub valid-has_byte :
    (c : ℕ) (id : Bytes) → valid_session_id id ≡ true → is_id_byte c ≡ false → has_byte c id ≡ false
valid-has_byte c id ok h = has_byte-foreign c id h (valid-bytes id ok)
