-- ===== src/Probe/System/Tests.antt =====
-- A run of the probe at concrete inputs.
use netsee.Prelude.{[], arith, ◌*◌, ◌++◌, ◌∷◌, ◌≤◌}
use netsee.Prelude.Text.{utf8}
use netsee.Probe.Handlers.{handle_session}
use netsee.Probe.Mux.{HttpRequest, serve_request}
use netsee.Probe.Server.{Bound, Server, started}
use netsee.Probe.Server.Registry.{HoldsValid}
use netsee.Probe.Server.Samples.{
  config_of, config_of-max_sessions, decode, digests, env_at, peer, session_id,
}
use netsee.Probe.System.{Run, gc_tick, http_request, idle, then_serves, tick, udp_arrival}
use netsee.Probe.System.Bounded.{Run-bounded}
use netsee.Probe.System.Filed.{AreOwn, Run-AreOwn}
use netsee.Probe.Udp.{UdpAddr, handle_udp_arrival, udp_socket}
use netsee.Proto.Store.{len}
use netsee.Proto.Store.Runs.{total_obs}
use netsee.Proto.Types.{udp_echo}

abbrev echo_request : HttpRequest
echo_request = record {
  request = record {
    method = utf8 "GET";
    uri = utf8 "/echo";
    proto = utf8 "HTTP/1.1";
    host = utf8 "probe";
    header = (utf8 "X-Netsee-Session", session_id ∷ []) ∷ [];
  };
  target = utf8 "/echo";
  path = utf8 "/echo";
}

abbrev source : UdpAddr
source = record { ip = utf8 "192.0.2.1"; port = 40000 }

abbrev bound : Bound
bound = record { http = 8080; tls = 8443; udp = 8444; nat = 8445; extra = 9000 ∷ [] }

abbrev fresh : Server
fresh = started (config_of []) bound

abbrev echoed : Server
echoed = (serve_request (env_at 7) peer echo_request fresh).0

abbrev received : Server
received =
    (handle_udp_arrival decode (env_at 8) udp_socket (session_id ++ udp_echo) source 64 echoed).0

-- An echo, a datagram of the same session, and a tick.
echo_datagram_tick : Run decode digests fresh (gc_tick 9 received)
echo_datagram_tick =
    then_serves
      (then_serves (then_serves idle (http_request (env_at 7) peer echo_request fresh))
        (udp_arrival (env_at 8) udp_socket (session_id ++ udp_echo) source 64 echoed))
      (tick 9 received)

Run-bounded_example :
    HoldsValid (gc_tick 9 received)
    × (len (gc_tick 9 received).store ≤ 2)
    × (total_obs (gc_tick 9 received).store.sessions ≤ 4096 * 2)
Run-bounded_example =
    Run-bounded decode digests (config_of []) bound 2 (gc_tick 9 received) config_of-max_sessions
      (omega arith) echo_datagram_tick

Run-AreOwn_example : AreOwn session_id (handle_session 9 session_id (gc_tick 9 received)).1
Run-AreOwn_example =
    Run-AreOwn decode digests (config_of []) bound (gc_tick 9 received) 9 session_id
      echo_datagram_tick
