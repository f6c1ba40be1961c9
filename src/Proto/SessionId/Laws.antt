-- ===== src/Proto/SessionId/Laws.antt =====
-- What identifiers `ValidSessionID` admits.

use native.Mathlib.Nat.{add-zero, zero-add}
use mathlib.Core.Path.{subst}
use netsee.Prelude.{
  ==_iff, All, Bool-cases, [], arith, false, get_elem?, if◌then◌else◌, inl, inr, length, refl, some,
  suc, sym, true, zero, ℕ, ◌+◌, ◌==◌, ◌↔◌, ◌∷◌, ◌≡◌, ◌≤◌, ◌⊎◌,
}
use netsee.Prelude.Text.{Bytes, is_empty}
use netsee.Proto.SessionId.{is_dash_index, is_hex, valid_bare, valid_dashed, valid_session_id}

-- The places of the dashes, and the digits of both cases.
abbrev pub IsDashPlace : ℕ → Type 0
IsDashPlace i = (i ≡ 8) ⊎ (i ≡ 13) ⊎ (i ≡ 18) ⊎ (i ≡ 23)

abbrev pub IsHexDigit : ℕ → Type 0
IsHexDigit c = ((b'0' ≤ c) × (c ≤ b'9')) ⊎ ((b'a' ≤ c) × (c ≤ b'f')) ⊎ ((b'A' ≤ c) × (c ≤ b'F'))

abbrev pub IsUuidByte : ℕ → ℕ → Type 0
IsUuidByte i c = (IsDashPlace i → c ≡ b'-') × (¬ IsDashPlace i → IsHexDigit c)

pub is_hex_iff : (c : ℕ) → (is_hex c ≡ true) ↔ IsHexDigit c
unfolding is_hex
is_hex_iff c = ((λ h. ground arith), (λ h. ground arith))

pub is_dash_index_iff : (i : ℕ) → (is_dash_index i ≡ true) ↔ IsDashPlace i
unfolding is_dash_index
is_dash_index_iff i = ((λ h. ground arith), (λ h. ground arith))

-- The test of the loop, read as a condition on each position.
abbrev IsTested : ℕ → ℕ → Type 0
IsTested i c = if is_dash_index i then c ≡ b'-' else (is_hex c ≡ true)

valid_dashed_sound :
    (i : ℕ) (id : Bytes)
    → valid_dashed i id ≡ true
    → (j c : ℕ) → get_elem? id j ≡ some c
    → IsTested (i + j) c
unfolding valid_dashed
valid_dashed_sound i [] h j c e = cc
valid_dashed_sound i (x ∷ id) h zero c e = rw add-zero (ground arith)
valid_dashed_sound i (x ∷ id) h (suc j) c e =
    let k : i + 1 + j ≡ i + suc j = omega arith in
    rw (← k) (valid_dashed_sound (i + 1) id (ground arith) j c e)

valid_dashed_complete :
    (i : ℕ) (id : Bytes)
    → ((j c : ℕ) → get_elem? id j ≡ some c → IsTested (i + j) c)
    → valid_dashed i id ≡ true
unfolding valid_dashed
valid_dashed_complete i [] h = refl
valid_dashed_complete i (x ∷ id) h =
    let first : IsTested i x = subst (λ k. IsTested k x) (add-zero i) (h 0 x refl) in
    let rest =
      valid_dashed_complete (i + 1) id
        (λ j c e. subst (λ k. IsTested k c) (omega arith) (h (suc j) c e)) in
    ground (arith, ==_iff x b'-')

IsTested-iff : (i c : ℕ) → IsTested i c ↔ IsUuidByte i c
IsTested-iff i c = elim (Bool-cases (is_dash_index i)) [
  | inl dash ↦
      let place = (is_dash_index_iff i).0 dash in
      (
        (λ h. ((λ _. rw dash at h), (λ elsewhere. absurd (elsewhere place)))),
        (λ h. rw dash (h.0 place)),
      )
  | inr other ↦
      let elsewhere : ¬ IsDashPlace i = λ place. ground (arith, (is_dash_index_iff i).1 place) in
      let hex = is_hex_iff c in
      (
        (λ h. ((λ place. absurd (elsewhere place)), (λ _. hex.0 (rw other at h)))),
        (λ h. rw other (hex.1 (h.1 elsewhere))),
      )
]

valid_bare_sound : (id : Bytes) → valid_bare id ≡ true → All IsHexDigit id
unfolding valid_bare
valid_bare_sound [] h = tt
valid_bare_sound (x ∷ id) h = ((is_hex_iff x).0 (ground arith), valid_bare_sound id (ground arith))

valid_bare_complete : (id : Bytes) → All IsHexDigit id → valid_bare id ≡ true
unfolding valid_bare
valid_bare_complete [] h = refl
valid_bare_complete (x ∷ id) h = rw ((is_hex_iff x).1 h.0) (valid_bare_complete id h.1)

-- The shapes that the comment of `ValidSessionID` names.
pub data IsSessionId (id : Bytes) : Type 0 where
  dashed : length id ≡ 36 → ((i c : ℕ) → get_elem? id i ≡ some c → IsUuidByte i c) → IsSessionId id
  bare : length id ≡ 32 → All IsHexDigit id → IsSessionId id

valid_session_id_sound : (id : Bytes) → valid_session_id id ≡ true → IsSessionId id
unfolding valid_session_id
valid_session_id_sound id h = elim (Bool-cases (length id == 36)) [
  | inl long ↦ dashed ((==_iff _ 36).0 long) (λ j c e.
      (IsTested-iff j c).0
        (subst (λ k. IsTested k c) (zero-add j) (valid_dashed_sound 0 id (rw long at h) j c e)))
  | inr other ↦ elim (Bool-cases (length id == 32)) [
    | inl short ↦ bare ((==_iff _ 32).0 short) (valid_bare_sound id (rw (other, short) at h))
    | inr neither ↦ absurd (ground arith)
  ]
]

valid_session_id_complete : (id : Bytes) → IsSessionId id → valid_session_id id ≡ true
unfolding valid_session_id
valid_session_id_complete id (dashed n h) = rw n (
    valid_dashed_complete 0 id
      (λ j c e. subst (λ k. IsTested k c) (sym (zero-add j)) ((IsTested-iff j c).1 (h j c e))))
valid_session_id_complete id (bare n h) = rw n (valid_bare_complete id h)

-- `ValidSessionID` answers true exactly on texts of 36 bytes with `-` at 8, 13, 18 and 23 and
-- hexadecimal digits, of either case, elsewhere, and on texts of 32 hexadecimal digits.
pub valid_session_id_iff : (id : Bytes) → (valid_session_id id ≡ true) ↔ IsSessionId id
valid_session_id_iff id = (valid_session_id_sound id, valid_session_id_complete id)

-- No identifier is empty.
pub valid-not_empty : (id : Bytes) → valid_session_id id ≡ true → is_empty id ≡ false
unfolding valid_session_id
valid-not_empty [] h = cc
valid-not_empty (c ∷ id) h = refl
