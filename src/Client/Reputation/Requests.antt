-- ===== src/Client/Reputation/Requests.antt =====
-- internal/client/reputation.go: the requests of `queryIPAPI` and `queryIPInfo`. Neither looks at the
-- status of the reply. `json.Unmarshal` is a parameter.
mod Tests
use netsee.Client.Reputation.{
  ApiAnswer, ApiReply, InfoReply, api_failed, api_replied, query_reputation,
}
use netsee.Client.Session.{HttpReply, http_failed, http_status}
use netsee.Client.Types.{Fallible, ReputationResult, failed_with, succeeded}
use netsee.Prelude.{Option, none, ◌++◌}
use netsee.Prelude.Text.{Bytes, utf8}

ip_api_url : Bytes → Bytes → Bytes
ip_api_url base ip =
    base
    ++ (utf8 "/"
        ++ (ip ++ utf8 "?fields=status,message,country,region,city,isp,org,as,proxy,hosting"))

ip_info_url : Bytes → Bytes
ip_info_url ip = utf8 "https://ipinfo.io/" ++ (ip ++ utf8 "/json")

-- The header that `queryIPInfo` sets.
ip_info_header : Bytes → Bytes × Bytes
ip_info_header token = (utf8 "Authorization", utf8 "Bearer " ++ token)

api_answer : (Bytes → Fallible ApiReply) → HttpReply → ApiAnswer
api_answer decode (http_failed e) = api_failed e
api_answer decode (http_status code body) = elim (decode body) [
  | failed_with e ↦ api_failed e
  | succeeded d ↦ api_replied d
]

info_answer : (Bytes → Option InfoReply) → HttpReply → Option InfoReply
info_answer decode (http_failed e) = none
info_answer decode (http_status code body) = decode body

-- `QueryReputation` with its requests: those without a header of their own, and those with one.
pub look_up :
    (Bytes → Fallible ApiReply)
    → (Bytes → Option InfoReply)
    → (Bytes → HttpReply)
    → (Bytes × Bytes → Bytes → HttpReply)
    → Bytes
    → Bytes
    → Bytes
    → ReputationResult
look_up decode_api decode_info get get_with ip token base =
    query_reputation ip token (api_answer decode_api (get (ip_api_url base ip)))
      (info_answer decode_info (get_with (ip_info_header token) (ip_info_url ip)))
