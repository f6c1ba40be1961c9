-- ===== src/Client/Dns/Query/Answers.antt =====
-- When `queryDoH` gives answers.
use netsee.Client.Session.{HttpReply, http_status, status_ok}
use netsee.Client.Types.{Fallible, succeeded}
use netsee.Prelude.{List, [], ℕ, ◌∷◌, ◌≡◌}
use netsee.Prelude.Text.{Bytes}

-- The answers are the fields that are not empty, in order.
pub data Keeps : List Bytes → List Bytes → Type 0 where
  no_fields : Keeps [] []
  skips : {entries answers : List Bytes} → Keeps entries answers → Keeps ([] ∷ entries) answers
  keeps :
      {c : ℕ} {s : Bytes} {entries answers : List Bytes}
      → Keeps entries answers
      → Keeps ((c ∷ s) ∷ entries) ((c ∷ s) ∷ answers)

-- The reply has the status 200 and a body that decodes to answers, of which the full ones remain.
pub record IsAnswer (decode : Bytes → Fallible (List Bytes)) (reply : HttpReply)
    (answers : List Bytes) : Type 0 where
  pub body : Bytes
  pub data_fields : List Bytes
  pub replied : reply ≡ http_status status_ok body
  pub decoded : decode body ≡ succeeded data_fields
  pub full : Keeps data_fields answers
