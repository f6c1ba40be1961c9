-- ===== src/Probe/Handlers/Tests.antt =====
-- The handlers at concrete inputs.
use netsee.Prelude.{[], refl, ◌∷◌, ◌≡◌}
use netsee.Prelude.Dict.{lookup}
use netsee.Prelude.Text.{bytes_beq, bytes_eq, utf8}
use netsee.Probe.Handlers.{Request, header_get, request_session}
use netsee.Probe.Server.Samples.{session_id}
use netsee.Proto.SessionId.{valid_session_id}

abbrev request : Request
request = record {
  method = utf8 "GET";
  uri = utf8 "/echo";
  proto = utf8 "HTTP/1.1";
  host = utf8 "probe";
  header = (utf8 "X-Netsee-Session", session_id ∷ []) ∷ [];
}

request_session_id : request_session request ≡ session_id
unfolding request_session valid_session_id header_get lookup bytes_beq utf8
request_session_id = refl
