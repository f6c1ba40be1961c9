-- ===== src/Probe/Mux.antt =====
-- internal/probe/server.go: which handler the `http.ServeMux` of `Start` gives a request, and what
-- `writeJSON` sends. The standard library's mux is modelled for the three patterns that the probe
-- registers; the encoder of JSON is a parameter.
-- A request as the mux sees it: the target on the request line, and the URL's escaped path.
pub mod Routed
pub mod Exact
pub mod Changes
mod Tests
pub mod Sessions
use netsee.Prelude.{Bool, List, Option, [], if◌then◌else◌, none, some, ℕ, ◌||◌, ◌∷◌}
use netsee.Prelude.Text.{Bytes, bytes_beq, utf8}
use netsee.Probe.Handlers.{EchoReply, Request, handle_echo, handle_info, handle_session}
use netsee.Probe.Paths.{Segment, clean_path, literal, match_segments, remainder, wildcard}
use netsee.Probe.Server.{Env, Peer, Server}
use netsee.Proto.Types.{Info, Obs}

pub record HttpRequest : Type 0 where
  pub request : Request
  pub target : Bytes
  pub path : Bytes

-- What a pattern of `Start` leads to.
pub data Endpoint : Type 0 where
  to_info : Endpoint
  to_session : Bytes → Endpoint
  to_echo : Endpoint

-- "/api/info", "/api/session/{id}" and "/".
abbrev pub info_pattern : List Segment
info_pattern = literal (utf8 "api") ∷ literal (utf8 "info") ∷ []

abbrev pub session_pattern : List Segment
session_pattern = literal (utf8 "api") ∷ literal (utf8 "session") ∷ wildcard ∷ []

abbrev pub echo_pattern : List Segment
echo_pattern = remainder ∷ []

-- `r.PathValue("id")` of the values that were matched.
unfoldable pub path_value : List Bytes → Bytes
path_value [] = []
path_value (v ∷ values) = v

-- A pattern with the method GET takes HEAD too.
unfoldable pub reads_only : Bytes → Bool
reads_only method = bytes_beq method (utf8 "GET") || bytes_beq method (utf8 "HEAD")

-- The first pattern that matches, of the values of the two with a method.
unfoldable pub first_match : Option (List Bytes) → Option (List Bytes) → Option Endpoint
first_match (some values) session = some to_info
first_match none (some values) = some (to_session (path_value values))
first_match none none = none

-- The patterns with a method, which go before the one without.
unfoldable pub get_endpoint : Bytes → Option Endpoint
get_endpoint path =
    first_match (match_segments info_pattern path) (match_segments session_pattern path)

unfoldable pub any_endpoint : Bytes → Option Endpoint
any_endpoint path = elim (match_segments echo_pattern path) [
  | some values ↦ some to_echo
  | none ↦ none
]

unfoldable pub or_else : Option Endpoint → Option Endpoint → Option Endpoint
or_else (some e) other = some e
or_else none other = other

unfoldable pub endpoint_of : Bytes → Bytes → Option Endpoint
endpoint_of method path =
    or_else (if reads_only method then get_endpoint path else none) (any_endpoint path)

-- What the mux does with a request: it leads it to a handler, or it answers itself, with the status
-- 400 to the target `*`, with a redirection to the cleaned path, and with an error to a CONNECT
-- that names no path.
pub data Dispatch : Type 0 where
  handled : Endpoint → Dispatch
  bad_request : Dispatch
  moved : Bytes → Dispatch
  unrouted : Dispatch

unfoldable pub by_endpoint : Option Endpoint → Dispatch
by_endpoint none = unrouted
by_endpoint (some e) = handled e

unfoldable pub dispatch : Bytes → Bytes → Bytes → Dispatch
dispatch method target path =
    if bytes_beq target (utf8 "*")
    then bad_request
    else if bytes_beq method (utf8 "CONNECT") || bytes_beq path (clean_path path)
    then by_endpoint (endpoint_of method path)
    else moved (clean_path path)

-- What a handler answers; none of the handlers runs where the mux answers itself.
pub data Answer : Type 0 where
  info_answer : Info → Answer
  session_answer : Option (List Obs) → Answer
  echo_answer : EchoReply → Answer
  mux_answer : Dispatch → Answer

unfoldable pub serve_endpoint : Env → Peer → Request → Endpoint → Server → Server × Answer
serve_endpoint e peer r to_info s = (s, info_answer (handle_info s))
serve_endpoint e peer r (to_session id) s =
    let (t, found) = handle_session e.now id s in (t, session_answer found)
serve_endpoint e peer r to_echo s =
    let (t, reply) = handle_echo e peer r s in (t, echo_answer reply)

unfoldable pub serve_dispatched : Env → Peer → Request → Dispatch → Server → Server × Answer
serve_dispatched e peer r (handled endpoint) s = serve_endpoint e peer r endpoint s
serve_dispatched e peer r bad_request s = (s, mux_answer bad_request)
serve_dispatched e peer r (moved path) s = (s, mux_answer (moved path))
serve_dispatched e peer r unrouted s = (s, mux_answer unrouted)

-- One request at the HTTP socket.
unfoldable pub serve_request : Env → Peer → HttpRequest → Server → Server × Answer
serve_request e peer q s =
    serve_dispatched e peer q.request (dispatch q.request.method q.target q.path) s

-- What a handler writes: the status, the content type and the body.
pub record Written : Type 0 where
  pub status : ℕ
  pub content_type : Bytes
  pub body : Bytes

-- `json.Encoder` on what the handlers answer.
pub record JsonEncoder : Type 0 where
  pub of_info : Info → Bytes
  pub of_obs : List Obs → Bytes
  pub of_echo : EchoReply → Bytes

abbrev pub write_json : ℕ → Bytes → Written
write_json status body = record {
  status = status;
  content_type = utf8 "application/json";
  body = body;
}

-- `http.Error(w, "session not found", http.StatusNotFound)`
abbrev pub session_missing : Written
session_missing = record {
  status = 404;
  content_type = utf8 "text/plain; charset=utf-8";
  body = utf8 "session not found\n";
}

-- What the handlers send; none where the mux answers itself.
unfoldable pub written : JsonEncoder → Answer → Option Written
written j (info_answer info) = some (write_json 200 (j.of_info info))
written j (session_answer none) = some session_missing
written j (session_answer (some obs)) = some (write_json 200 (j.of_obs obs))
written j (echo_answer reply) = some (write_json 200 (j.of_echo reply))
written j (mux_answer d) = none
