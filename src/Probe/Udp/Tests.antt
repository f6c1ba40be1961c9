-- ===== src/Probe/Udp/Tests.antt =====
-- Datagrams at concrete inputs.
use netsee.Prelude.{List, [], false, refl, some, ◌++◌, ◌∷◌, ◌≡◌, ◌≤◌}
use netsee.Prelude.Text.{Bytes, bytes_beq, utf8}
use netsee.Probe.Server.Registry.{Follows}
use netsee.Probe.Server.Samples.{decode, env_at, server_of, session_id}
use netsee.Probe.Udp.{
  UdpAddr, UdpRead, choose_replier, datagram, handle_udp_arrival, local_port, nat_socket,
  read_failed, serve_udp_loop, udp_socket,
}
use netsee.Probe.Udp.Loop.{received_bytes, sent_bytes, serve_udp_loop_sound}
use netsee.Probe.Udp.Replies.{AnsweredOrDropped, handle_udp_arrival-AnsweredOrDropped}
use netsee.Proto.Types.{udp_echo, udp_nat}

abbrev source : UdpAddr
source = record { ip = utf8 "192.0.2.1"; port = 40000 }

abbrev echo_payload : Bytes
echo_payload = session_id ++ udp_echo

handle_udp_arrival-AnsweredOrDropped_example :
    AnsweredOrDropped decode
      (env_at 7)
      udp_socket
      echo_payload
      source
      64
      (server_of [])
      (handle_udp_arrival decode (env_at 7) udp_socket echo_payload source 64 (server_of []))
handle_udp_arrival-AnsweredOrDropped_example =
    handle_udp_arrival-AnsweredOrDropped decode (env_at 7) udp_socket echo_payload source 64
      (server_of [])

nat_choice : choose_replier (server_of []) udp_socket udp_nat ≡ some (nat_socket, utf8 "other-port")
unfolding choose_replier bytes_beq utf8 local_port
nat_choice = refl

abbrev two_reads : List UdpRead
two_reads =
    datagram (env_at 7) echo_payload source 64
    ∷ read_failed false
    ∷ datagram (env_at 8) (1 ∷ []) source 64
    ∷ []

serve_udp_loop_sound_example :
    Follows (server_of []) (serve_udp_loop decode udp_socket two_reads (server_of [])).0
    × (sent_bytes (serve_udp_loop decode udp_socket two_reads (server_of [])).1
        ≤ received_bytes two_reads)
serve_udp_loop_sound_example = serve_udp_loop_sound decode udp_socket two_reads (server_of [])
