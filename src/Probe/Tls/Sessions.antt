-- ===== src/Probe/Tls/Sessions.antt =====
-- The session in the SNI.
use netsee.Prelude.{
  All, Bool-cases, [], ap, arith, false, get_elem?, inl, inr, length, refl, some, suc, take, true,
  ℕ, ◌++◌, ◌<◌, ◌==◌, ◌∷◌, ◌≡◌,
}
use netsee.Prelude.Text.{Bytes}
use netsee.Probe.Tls.{index_dot, session_of_sni}
use netsee.Proto.SessionId.{is_dash_index, valid_session_id}
use netsee.Proto.SessionId.Laws.{
  IsHexDigit, IsSessionId, IsUuidByte, bare, dashed, is_dash_index_iff, valid_session_id_iff,
}

-- A valid identifier has no dot.
index_dot-none_before :
    (id rest : Bytes)
    → All (λ c. (c == b'.') ≡ false) id
    → index_dot (id ++ (b'.' ∷ rest)) ≡ some (length id)
unfolding index_dot
index_dot-none_before [] rest h = refl
index_dot-none_before (c ∷ id) rest h = rw (h.0, index_dot-none_before id rest h.1)

IsHexDigit-not_dot : (c : ℕ) → IsHexDigit c → (c == b'.') ≡ false
IsHexDigit-not_dot c h = ground arith

take-append_all : (s t : Bytes) → take (length s) (s ++ t) ≡ s
take-append_all [] t = refl
take-append_all (c ∷ s) t = ap (◌∷◌ c) (take-append_all s t)

All-get : (P : ℕ → Type 0) (s : Bytes) → ((i c : ℕ) → get_elem? s i ≡ some c → P c) → All P s
All-get P [] h = tt
All-get P (c ∷ s) h = (h 0 c refl, All-get P s (λ i d e. h (suc i) d e))

IsUuidByte-not_dot : (i c : ℕ) → IsUuidByte i c → (c == b'.') ≡ false
IsUuidByte-not_dot i c h = elim (Bool-cases (is_dash_index i)) [
  | inl dash ↦ let e : c ≡ b'-' = h.0 ((is_dash_index_iff i).0 dash) in rw e refl
  | inr other ↦ IsHexDigit-not_dot c (h.1 (λ place. ground (arith, (is_dash_index_iff i).1 place)))
]

IsSessionId-no_dot : (id : Bytes) → IsSessionId id → All (λ c. (c == b'.') ≡ false) id
IsSessionId-no_dot id (dashed n h) = All-get _ id (λ i c e. IsUuidByte-not_dot i c (h i c e))
IsSessionId-no_dot id (bare n h) = no_dots id h
  where
    no_dots : (s : Bytes) → All IsHexDigit s → All (λ c. (c == b'.') ≡ false) s
    no_dots [] k = tt
    no_dots (c ∷ s) k = (IsHexDigit-not_dot c k.0, no_dots s k.1)

IsSessionId-length : (id : Bytes) → IsSessionId id → 0 < length id
IsSessionId-length id (dashed n h) = omega arith
IsSessionId-length id (bare n h) = omega arith

-- A valid identifier in front of a dot that starts the rest of the SNI is the session recorded.
pub session_of_sni-append :
    (id rest : Bytes) → valid_session_id id ≡ true → session_of_sni (id ++ (b'.' ∷ rest)) ≡ id
unfolding session_of_sni
session_of_sni-append id rest ok =
    let shape = (valid_session_id_iff id).0 ok in
    let size = IsSessionId-length id shape in
    ground (
      arith,
      index_dot-none_before id rest (IsSessionId-no_dot id shape),
      take-append_all id (b'.' ∷ rest),
    )
