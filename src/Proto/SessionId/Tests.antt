-- ===== src/Proto/SessionId/Tests.antt =====
-- Concrete identifiers.
use netsee.Prelude.{All, [], arith, refl, true, ◌<◌, ◌↔◌, ◌∷◌, ◌≡◌}
use netsee.Prelude.Text.{Bytes, utf8}
use netsee.Proto.SessionId.{new_id, valid_session_id}
use netsee.Proto.SessionId.Laws.{IsSessionId, valid_session_id_iff}

dashed_id : valid_session_id (utf8 "00112233-4455-6677-8899-aabbccddeeff") ≡ true
unfolding valid_session_id utf8
dashed_id = refl

abbrev zeros_255 : Bytes
zeros_255 = 0 ∷ 0 ∷ 0 ∷ 0 ∷ 0 ∷ 0 ∷ 0 ∷ 0 ∷ 0 ∷ 0 ∷ 0 ∷ 0 ∷ 0 ∷ 0 ∷ 0 ∷ 255 ∷ []

new_id_zero : new_id zeros_255 ≡ utf8 "00000000-0000-4000-8000-0000000000ff"
unfolding new_id utf8
new_id_zero = refl

valid_session_id_iff_example :
    (valid_session_id (utf8 "00112233-4455-6677-8899-aabbccddeeff") ≡ true)
    ↔ IsSessionId (utf8 "00112233-4455-6677-8899-aabbccddeeff")
valid_session_id_iff_example = valid_session_id_iff (utf8 "00112233-4455-6677-8899-aabbccddeeff")

zeros_255-IsByte : All (λ b. b < 256) zeros_255
zeros_255-IsByte = ground arith
