-- ===== src/Client/Session.antt =====
-- internal/client/session.go: what the client asks of the probe under a session identifier. The
-- replies of the network are parameters, and so are the decoders of JSON and the URL's parser.
pub mod Pulls
pub mod Deadline
pub mod Carried
pub mod EndToEnd
mod Tests
use netsee.Client.Types.{Fallible, ProbeInfo, failed_with, succeeded}
use netsee.Prelude.{
  List, Option, [], if◌then◌else◌, ltb, none, not, some, suc, zero, ℕ, ◌++◌, ◌+◌, ◌==◌, ◌∷◌,
}
use netsee.Prelude.Text.{Bytes, is_empty, utf8}
use netsee.Prelude.Words.{itoa}
use netsee.Probe.Mux.{written}
use netsee.Proto.Types.{Obs}

pub record ProbeSession : Type 0 where
  pub id : Bytes
  pub probe : Bytes
  pub info : ProbeInfo

-- What a request over HTTP comes to: an error, or a status and a body.
pub data HttpReply : Type 0 where
  http_failed : Bytes → HttpReply
  http_status : ℕ → Bytes → HttpReply

abbrev pub status_ok : ℕ
status_ok = 200

-- `fmt.Errorf("probe /api/info: %w", err)` and the like.
wrapped : {A : Type 0} → Bytes → Fallible A → Fallible A
wrapped what (succeeded a) = succeeded a
wrapped what (failed_with e) = failed_with (what ++ (utf8 ": " ++ e))

-- `NewSession` on the reply of `/api/info`; `proto.NewID()` is the fresh identifier.
pub new_session : (Bytes → Fallible ProbeInfo) → Bytes → Bytes → HttpReply → Fallible ProbeSession
unfolding wrapped
new_session decode fresh_id probe (http_failed e) = wrapped (utf8 "probe /api/info") (failed_with e)
new_session decode fresh_id probe (http_status code body) =
    if not (code == status_ok)
    then failed_with (utf8 "probe /api/info: status " ++ itoa code)
    else elim (decode body) [
      | failed_with e ↦ wrapped (utf8 "decode /api/info") (failed_with e)
      | succeeded info ↦ succeeded (record { id = fresh_id; probe = probe; info = info })
    ]

-- One round of `Pull`: the reply, the time once it is read, and the error of the context if that
-- ends during the wait.
pub record Poll : Type 0 where
  pub reply : HttpReply
  pub now : ℕ
  pub cancelled : Option Bytes

-- `pull_stuck` is no result of the source: the rounds ran out.
pub data Pulled : Type 0 where
  pulled_obs : List Obs → Pulled
  pull_failed : Bytes → Pulled
  pull_stuck : Pulled

read_obs : Fallible (List Obs) → Pulled
read_obs (succeeded obs) = pulled_obs obs
read_obs (failed_with e) = pull_failed e

abbrev not_found : Bytes → Bytes
not_found id = utf8 "session " ++ (id ++ utf8 " not found")

-- A round whose status is not 200; none goes on to the next one.
unanswered : Bytes → ℕ → Poll → Option Pulled
unanswered id deadline p =
    if ltb deadline p.now
    then some (pull_failed (not_found id))
    else elim p.cancelled [ some e ↦ some (pull_failed e) | none ↦ none ]

-- The body of the loop.
unfoldable pub one_round : (Bytes → Fallible (List Obs)) → Bytes → ℕ → Poll → Option Pulled
unfolding read_obs unanswered
one_round decode id deadline p = elim p.reply [
  | http_failed e ↦ some (pull_failed e)
  | http_status code body ↦
      if code == status_ok then some (read_obs (decode body)) else unanswered id deadline p
]

-- The loop of `Pull` from the n-th round.
pull_from : (Bytes → Fallible (List Obs)) → Bytes → ℕ → (ℕ → Poll) → ℕ → ℕ → Pulled
pull_from decode id deadline polls zero n = pull_stuck
pull_from decode id deadline polls (suc fuel) n = elim (one_round decode id deadline (polls n)) [
  | some r ↦ r
  | none ↦ pull_from decode id deadline polls fuel (suc n)
]

-- `3 * time.Second`, and `20 * time.Millisecond` between two rounds, in nanoseconds.
abbrev pull_time : ℕ
pull_time = 3_000_000_000

abbrev pull_pause : ℕ
pull_pause = 20_000_000

-- The rounds that fit into the time, and the one that finds it passed.
abbrev pull_rounds : ℕ
pull_rounds = 152

unfoldable pub pull : (Bytes → Fallible (List Obs)) → Bytes → ℕ → (ℕ → Poll) → Pulled
unfolding pull_from one_round
pull decode id start polls = pull_from decode id (start + pull_time) polls pull_rounds 0

-- The paths behind the base URL of the probe.
abbrev pub info_path : Bytes
info_path = utf8 "/api/info"

abbrev pub session_path : Bytes → Bytes
session_path id = utf8 "/api/session/" ++ id

abbrev pub echo_path : Bytes
echo_path = utf8 "/echo"

-- The header that `HTTPEcho` sets.
pub echo_header : Bytes → List (Bytes × List Bytes)
echo_header id =
    (utf8 "X-Netsee-Session", id ∷ []) ∷ (utf8 "User-Agent", utf8 "netsee-client/0.1" ∷ []) ∷ []

-- `HTTPEcho`: the error, if there is one.
pub http_echo : HttpReply → Option Bytes
http_echo (http_failed e) = some e
http_echo (http_status code body) =
    if not (code == status_ok) then some (utf8 "echo status " ++ itoa code) else none

-- The server name of `TLSSniff`.
pub sni_of : Bytes → Bytes
sni_of id = id ++ utf8 ".1"

-- `TLSSniff`: only the dial's error counts; the handshake fails.
pub tls_sniff : Option Bytes → Option Bytes → Option Bytes
tls_sniff dial_error handshake_error = dial_error

-- The text that `TCPReach` writes.
pub reach_payload : Bytes → Bytes
reach_payload id = utf8 "{\"session\":\"" ++ (id ++ utf8 "\",\"kind\":\"reach\"}")

-- `TCPReach`: the errors of the dial and of the write.
unfoldable pub tcp_reach : Option Bytes → Option Bytes → Option Bytes
tcp_reach (some e) written = some e
tcp_reach none written = written

-- `hostOf`; `url.Parse` and its host name are a parameter, none where the parser fails.
pub host_of : (Bytes → Option Bytes) → Bytes → Bytes
host_of parse_url base = elim (parse_url base) [
  | none ↦ base
  | some host ↦ if is_empty host then base else host
]
