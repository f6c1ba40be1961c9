-- ===== src/Client/Nat/EndToEnd.antt =====
-- The client's `send` against the probe.
use mathlib.Core.Option
use netsee.Client.Nat.{send}
use netsee.Client.Nat.Latest.{find_sent-append}
use netsee.Prelude.{Bool, List, Option, false, length, refl, some, true, ℕ, ◌&&◌, ◌<◌, ◌≡◌}
use netsee.Prelude.Dict.{lookup}
use netsee.Prelude.Int.{ltb_ℤ, pos}
use netsee.Prelude.Text.{Bytes, bytes_eq}
use netsee.Probe.Server.{Env, Server, blank_obs, record_obs}
use netsee.Probe.Server.Registry.{HoldsValid}
use netsee.Probe.Udp.{
  Decode, Socket, UdpAddr, choose_replier, handle_udp_arrival, local_port, max_payload,
  parse_udp_payload, record_udp, recorded_obs,
}
use netsee.Probe.Udp.Replies.{handle_udp_arrival_passes}
use netsee.Proto.SessionId.{valid_session_id}
use netsee.Proto.Store.{get, is_expired, max_obs_per_session}
use netsee.Proto.Store.Contents.{base_session, get-append}
use netsee.Proto.Types.{Obs, UdpObs}

-- What the registry answers to a `Pull`.
abbrev pub pulled : ℕ → Bytes → Server → Option (List Obs)
pulled now session s = Option.map (λ sess. sess.obs) (get now session s.store).1

-- A datagram that the probe accepts on a valid registry, in a session that is not full, is found by
-- the client as long as the session has not expired: with the source that the probe saw and the
-- reply's origin that it recorded.
pub send-handle_udp_arrival :
    (decode : Decode) (e : Env) (ln : Socket) (payload : Bytes) (src : UdpAddr) (ttl later : ℕ)
    (s : Server) (session kind reply_from : Bytes) (replier : Socket) (received : Bool)
    → HoldsValid s
    → valid_session_id session ≡ true
    → parse_udp_payload decode payload ≡ some (session, kind)
    → ltb_ℤ (max_payload s.cfg kind) (pos (length payload)) ≡ false
    → choose_replier s ln kind ≡ some (replier, reply_from)
    → length (base_session e.now session (lookup session s.store.sessions)).obs
      < max_obs_per_session
    → (ltb_ℤ (pos 0) s.store.ttl
        && is_expired s.store.ttl later
            (base_session e.now session (lookup session s.store.sessions)))
      ≡ false
    → send (local_port s ln) kind (record {
      wrote = true;
      received = received;
      pulled = pulled later session (handle_udp_arrival decode e ln payload src ttl s).0;
    })
      ≡ some (record {
        src_ip = src.ip;
        src_port = src.port;
        reply_from = reply_from;
        received = received;
      })
unfolding send record_udp record_obs blank_obs
send-handle_udp_arrival decode e ln payload src ttl later s session kind reply_from replier received
      v ok p f c room live =
    let recorded =
      handle_udp_arrival_passes decode e ln payload src ttl s session kind reply_from replier p f
        c in
    let o = recorded_obs e session src ttl kind reply_from (length payload) (local_port s ln) in
    let read = get-append e.now later session o s.store ok v.registry room live in
    let u : UdpObs = record {
      kind = kind;
      reply_from = reply_from;
      payload_len = length payload;
    } in
    rw recorded
      (rw read (find_sent-append (local_port s ln) kind received o u _ refl refl refl refl))
