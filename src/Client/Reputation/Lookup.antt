-- ===== src/Client/Reputation/Lookup.antt =====
-- Which source answers, and what is said where none does.
use netsee.Client.Reputation.{
  ApiAnswer, InfoReply, api_failed, api_replied, api_success, by_api, by_info, no_reputation,
}
use netsee.Client.Types.{ReputationResult}
use netsee.Prelude.{Bool, Option, false, none, true, ◌↔◌, ◌≡◌, ◌≢◌}
use netsee.Prelude.Text.{Bytes, bytes_beq, is_empty}

abbrev pub is_api_success : ApiAnswer → Bool
is_api_success (api_failed err) = false
is_api_success (api_replied d) = bytes_beq d.status api_success

abbrev pub is_api_failure : ApiAnswer → Bool
is_api_failure (api_failed err) = true
is_api_failure (api_replied d) = false

-- What a result says of the two queries.
pub record IsSourced (ip token : Bytes) (api : ApiAnswer) (info : Option InfoReply)
    (r : ReputationResult) : Type 0 where
  pub from_api : (r.source ≡ by_api) ↔ (is_api_success api ≡ true)
  pub from_info :
      (r.source ≡ by_info)
      ↔ ((is_api_failure api ≡ true) × (is_empty token ≡ false) × (info ≢ none))
  pub same_ip : r.source ≢ by_info → r.ip ≡ ip
  pub silent :
      r.source ≢ by_api
      → r.source ≢ by_info
      → (r ≡ no_reputation ip r.note) × (is_empty r.note ≡ false)
