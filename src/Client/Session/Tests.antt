-- ===== src/Client/Session/Tests.antt =====
-- A probe that answers in the third round, and an identifier.
use netsee.Client.Probed.{saw_port, with_source}
use netsee.Client.Session.{
  Poll, echo_header, echo_path, http_status, pull, pulled_obs, session_path,
}
use netsee.Client.Session.Carried.{IsCarried, new_id-IsCarried}
use netsee.Client.Session.Deadline.{IsFirstEnd, IsTimed, pull-IsFirstEnd}
use netsee.Client.Session.EndToEnd.{
  IsAccepted, IsEchoRequest, IsPullRequest, echoed_obs, http_reply_of, pulled_answer,
  pulled_answer-echoed, serve_request-IsDelivered,
}
use netsee.Client.Types.{Fallible, succeeded}
use netsee.Prelude.{
  All, List, [], ap, arith, if◌then◌else◌, ltb, none, refl, some, true, ℕ, ◌*◌, ◌+◌, ◌<◌, ◌∙◌, ◌∷◌,
  ◌≡◌,
}
use netsee.Prelude.Dict.{lookup}
use netsee.Prelude.Text.{Bytes, bytes_eq, utf8}
use netsee.Probe.Mux.{HttpRequest, JsonEncoder, serve_request, written}
use netsee.Probe.Server.Samples.{
  env_at, peer, server_of, server_of-HoldsValid, session_id, session_id-IsValid,
}
use netsee.Proto.SessionId.{new_id}
use netsee.Proto.Store.{is_expired}
use netsee.Proto.Types.{Obs}

abbrev random : Bytes
random = 0 ∷ 0 ∷ 0 ∷ 0 ∷ 0 ∷ 0 ∷ 0 ∷ 0 ∷ 0 ∷ 0 ∷ 0 ∷ 0 ∷ 0 ∷ 0 ∷ 0 ∷ 255 ∷ []

random-IsByte : All (λ b. b < 256) random
random-IsByte = ground arith

new_id-IsCarried_example : IsCarried (new_id random)
new_id-IsCarried_example = new_id-IsCarried random refl random-IsByte

abbrev no_obs : Bytes → Fallible (List Obs)
no_obs body = succeeded []

-- Rounds of 25 ms; the status is 404 before the third.
abbrev third_time : ℕ → Poll
third_time n = record {
  reply = http_status (if ltb n 2 then 404 else 200) [];
  now = 7 + n * 25_000_000;
  cancelled = none;
}

third_time-IsTimed : IsTimed 7 third_time
third_time-IsTimed = record { begins = omega arith; waits = λ n. omega arith }

pull_third : pull no_obs (utf8 "id") 7 third_time ≡ pulled_obs []
unfolding pull
pull_third = refl

pull-IsFirstEnd_example :
    IsFirstEnd no_obs (utf8 "id") 3_000_000_007 third_time (pull no_obs (utf8 "id") 7 third_time)
pull-IsFirstEnd_example = pull-IsFirstEnd no_obs (utf8 "id") 7 third_time third_time-IsTimed

-- An encoder and a decoder for one list of observations.
abbrev encoder : JsonEncoder
encoder = record { of_info = λ _. []; of_obs = λ obs. []; of_echo = λ reply. [] }

abbrev request_to : Bytes → HttpRequest
request_to path = record {
  request = record {
    method = utf8 "GET";
    uri = path;
    proto = utf8 "HTTP/1.1";
    host = utf8 "probe";
    header = echo_header session_id;
  };
  target = path;
  path = path;
}

abbrev expected : List Obs
expected = echoed_obs (env_at 7) peer (request_to echo_path).request session_id (server_of [])

abbrev at_once : ℕ → Poll
at_once n = record { reply = http_status 200 []; now = 8 + n; cancelled = none }

echo_sent : IsEchoRequest session_id (request_to echo_path)
echo_sent = record { method = refl; target = refl; path = refl; header = refl }

pull_sent : IsPullRequest session_id (request_to (session_path session_id))
pull_sent = record { method = refl; target = refl; path = refl }

pulled_reply :
    http_reply_of encoder (
      pulled_answer
        (env_at 7)
        (env_at 9)
        peer
        peer
        (request_to echo_path)
        (request_to (session_path session_id))
        session_id
        (server_of []))
    ≡ some (http_status 200 [])
unfolding lookup is_expired
pulled_reply =
    let answered =
      pulled_answer-echoed (env_at 7) (env_at 9) peer peer (request_to echo_path)
        (request_to (session_path session_id)) session_id (server_of []) (server_of-HoldsValid [])
        session_id-IsValid echo_sent pull_sent (omega arith) refl in
    ap (http_reply_of encoder) answered ∙ (unfold http_reply_of written in refl)

serve_request-IsDelivered_example :
    IsAccepted encoder (serve_request (env_at 7) peer (request_to echo_path) (server_of [])).1
    × (pull (λ body. succeeded expected) session_id 8 at_once ≡ pulled_obs expected)
    × (saw_port (with_source expected) 8080 ≡ true)
unfolding lookup is_expired
serve_request-IsDelivered_example =
    serve_request-IsDelivered (env_at 7) (env_at 9) peer peer (request_to echo_path)
      (request_to (session_path session_id)) session_id (server_of []) encoder
      (λ body. succeeded expected) (utf8 "192.0.2.1") 40000 8 at_once (server_of-HoldsValid [])
      session_id-IsValid echo_sent pull_sent (omega arith) refl refl refl (unfold utf8 in refl)
      pulled_reply
