-- ===== src/Client/Session/Carried.antt =====
-- The session identifier on its way to the probe.
use netsee.Client.Session.{echo_header, sni_of}
use netsee.Prelude.{All, [], arith, length, refl, some, true, ◌<◌, ◌∙◌, ◌∷◌, ◌≡◌}
use netsee.Prelude.Dict.{lookup}
use netsee.Prelude.Text.{Bytes, bytes_beq, bytes_eq, utf8}
use netsee.Probe.Handlers.{Request, request_session, session_key}
use netsee.Probe.Handlers.Records.{request_session-lookup}
use netsee.Probe.Tls.{session_of_sni}
use netsee.Probe.Tls.Sessions.{session_of_sni-append}
use netsee.Probe.Udp.{Decode, parse_udp_payload}
use netsee.Proto.SessionId.{new_id, valid_session_id}
use netsee.Proto.SessionId.Fresh.{new_id-IsValid}

-- What the handlers of the probe read of an identifier that the client sends.
pub record IsCarried (id : Bytes) : Type 0 where
  pub valid : valid_session_id id ≡ true
  pub by_http :
      (r : Request)
      → lookup session_key r.header ≡ lookup session_key (echo_header id)
      → request_session r ≡ id
  pub by_tls : session_of_sni (sni_of id) ≡ id
  pub by_udp :
      (decode : Decode) (bytes kind : Bytes)
      → decode bytes ≡ some (id, kind)
      → parse_udp_payload decode bytes ≡ some (id, kind)

pub lookup-echo_header : (id : Bytes) → lookup session_key (echo_header id) ≡ some (id ∷ [])
unfolding echo_header lookup bytes_beq utf8
lookup-echo_header id = refl

-- An identifier that `NewID` makes, from any 16 random bytes, is accepted on every way on which the
-- client sends it, and comes out unchanged: by a request that has the session header of `HTTPEcho`,
-- by the server name of `TLSSniff`, and by a datagram that decodes to it.
pub new_id-IsCarried :
    (random : Bytes) → length random ≡ 16 → All (λ b. b < 256) random → IsCarried (new_id random)
unfolding sni_of utf8
new_id-IsCarried random n h =
    let ok = new_id-IsValid random n h in
    record {
      valid = ok;
      by_http = λ r e.
          request_session-lookup r (new_id random) [] (e ∙ lookup-echo_header (new_id random)) ok;
      by_tls = session_of_sni-append (new_id random) (utf8 "1") ok;
      by_udp = λ decode bytes kind e. unfold parse_udp_payload in ground (arith, e, ok);
    }
