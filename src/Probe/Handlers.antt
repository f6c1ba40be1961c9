-- ===== src/Probe/Handlers.antt =====
-- internal/probe/server.go: the HTTP handlers and the handler of the extra TCP ports.
pub mod Records
use mathlib.Core.List.{map}
mod Tests
use netsee.Prelude.{
  Bool, List, Option, [], false, if◌then◌else◌, none, some, true, ℕ, ◌&&◌, ◌++◌, ◌∷◌,
}
use netsee.Prelude.Dict.{lookup}
use netsee.Prelude.Sort.{sort_strings}
use netsee.Prelude.Text.{Bytes, bytes_eq, is_empty, utf8}
use netsee.Prelude.Words.{trim_space}
use netsee.Probe.Server.{Env, Peer, Server, blank_obs, record_obs, with_peer}
use netsee.Proto.SessionId.{valid_session_id}
use netsee.Proto.Store.{get}
use netsee.Proto.Types.{Header, Info, Obs, obs_http, obs_tcp}

-- A request as the handlers see it: the header is a map from canonical keys to values.
pub record Request : Type 0 where
  pub method : Bytes
  pub uri : Bytes
  pub proto : Bytes
  pub host : Bytes
  pub header : List (Bytes × List Bytes)

abbrev pub session_key : Bytes
session_key = utf8 "X-Netsee-Session"

-- `r.Header.Get(key)`: the first value, or "".
pub header_get : Bytes → List (Bytes × List Bytes) → Bytes
header_get key header = elim (lookup key header) [
  | none ↦ []
  | some values ↦ elim values [ [] ↦ [] | v ∷ vs ↦ v ]
]

-- The inner loop of `captureHeaders`.
with_key : Bytes → List Bytes → List Header
with_key k [] = []
with_key k (v ∷ vs) = record { key = k; value = v } ∷ with_key k vs

-- `r.Header[k]`
abbrev values_of : Bytes → List (Bytes × List Bytes) → List Bytes
values_of k header = elim (lookup k header) [ none ↦ [] | some values ↦ values ]

-- The outer loop, over the sorted keys.
headers_of : List Bytes → List (Bytes × List Bytes) → List Header
headers_of [] header = []
headers_of (k ∷ keys) header = with_key k (values_of k header) ++ headers_of keys header

abbrev keys_of : List (Bytes × List Bytes) → List Bytes
keys_of = map (λ e. e.0)

capture_headers : Request → List Header
capture_headers r =
    record { key = utf8 "Host"; value = r.host }
    ∷ headers_of (sort_strings (keys_of r.header)) r.header

-- The session that a request names: "" unless it is valid.
pub request_session : Request → Bytes
request_session r =
    let session = header_get session_key r.header in
    if valid_session_id session then session else []

pub echo_obs : Env → Peer → Request → Server → Obs
echo_obs e peer r s =
    with_peer peer (record (blank_obs e obs_http (request_session r) s.info.http_port) {
      http = some (record {
        method = r.method;
        path = r.uri;
        proto = r.proto;
        headers = capture_headers r;
      });
    })

-- The answer of `handleEcho`, as the fields of its JSON object.
pub record EchoReply : Type 0 where
  pub ok : Bool
  pub session : Bytes
  pub obs_id : Bytes

pub handle_echo : Env → Peer → Request → Server → Server × EchoReply
handle_echo e peer r s =
    let session = request_session r in
    let obs = echo_obs e peer r s in
    let recorded = if is_empty session then s else record_obs e session obs s in
    (recorded, record { ok = true; session = session; obs_id = obs.id })

-- `handleSession`: the observations, or none for the status 404.
unfoldable pub handle_session : ℕ → Bytes → Server → Server × Option (List Obs)
handle_session now id s =
    let (store, found) = get now id s.store in
    (record s { store = store }, elim found [ none ↦ none | some sess ↦ some sess.obs ])

pub handle_info : Server → Info
handle_info s = s.info

-- The first read at an extra port: n bytes, with or without an error.
pub record FirstRead : Type 0 where
  pub bytes : Bytes
  pub failed : Bool

-- `handleExtraConn`: none where the connection is closed with no answer, otherwise the flag of
-- `{"ok":…}`. `json.Unmarshal` is a parameter, and `strings.TrimSpace` that of ASCII text.
pub handle_extra_conn :
    (Bytes → Option (Bytes × Bytes)) → Env → Peer → FirstRead → ℕ → Server → Server × Option Bool
handle_extra_conn decode e peer r dst_port s =
    if r.failed && is_empty r.bytes then (s, none) else elim (decode (trim_space r.bytes)) [
      | none ↦ (s, some false)
      | some (session, kind) ↦
          if valid_session_id session
          then (
            record_obs e session (with_peer peer (blank_obs e obs_tcp session dst_port)) s,
            some true,
          )
          else (s, some false)
    ]
