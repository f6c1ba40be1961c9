-- ===== src/Client/Nat/Tests.antt =====
-- NAT measurements at concrete inputs.
use netsee.Client.Nat.{
  Attempt, Attempts, NatFact, NatResult, facts_of, find_sent, has_udp_kind, ip_filter,
  label_address_restricted, nat_judgment, nat_result, reply_of, run_nat, send, single_ip_premise,
}
use netsee.Client.Nat.EndToEnd.{pulled, send-handle_udp_arrival}
use netsee.Client.Nat.Judgment.{IsJudged, run_nat-IsJudged}
use netsee.Client.Types.{ProbeInfo}
use netsee.Prelude.{[], arith, false, length, none, refl, some, true, ℕ, ◌++◌, ◌∷◌, ◌≡◌}
use netsee.Prelude.Dict.{lookup}
use netsee.Prelude.Int.{ltb_ℤ, pos}
use netsee.Prelude.Text.{Bytes, bytes_beq, utf8}
use netsee.Probe.Server.Samples.{
  decode, env_at, server_of, server_of-HoldsValid, session_id, session_id-IsValid,
}
use netsee.Probe.Udp.{
  UdpAddr, choose_replier, handle_udp_arrival, local_port, max_payload, parse_udp_payload,
  udp_socket,
}
use netsee.Proto.SessionId.{valid_session_id}
use netsee.Proto.Store.{is_expired}
use netsee.Proto.Types.{Obs, obs_udp, udp_echo, udp_nat}

abbrev info : ProbeInfo
info = record {
  protocol_version = utf8 "1";
  http_port = 8080;
  tls_port = 8443;
  udp_port = 8444;
  nat_port = 8445;
  extra_ports = [];
  second_ip = true;
  second_ip_addr = utf8 "192.0.2.9";
  max_udp_pmtu = pos 9000;
}

abbrev udp_obs : ℕ → Bytes → Obs
udp_obs port kind = record {
  id = utf8 "o";
  kind = obs_udp;
  session = utf8 "s";
  src_ip = utf8 "198.51.100.7";
  src_port = 40000;
  dst_port = port;
  ttl = 64;
  time = 0;
  http = none;
  tcp_info = none;
  tls = none;
  udp = some (record { kind = kind; reply_from = utf8 "same"; payload_len = 60 });
}

abbrev attempt : Attempt
attempt = record {
  wrote = true;
  received = true;
  pulled = some (udp_obs 8444 udp_echo ∷ udp_obs 8445 udp_echo ∷ udp_obs 8444 udp_nat ∷ []);
}

abbrev attempts : Attempts
attempts = record {
  first = attempt;
  again = attempt;
  other_port = attempt;
  filter_port = attempt;
  filter_ip = attempt;
}

abbrev join : Bytes → ℕ → Bytes
join host port = host ++ (b':' ∷ [])

abbrev fact_of : Bytes → Bytes → Bytes → NatFact
fact_of kind detail source = record {
  kind = kind;
  detail = detail;
  observed_src = source;
  reply_from = utf8 "same";
  received = true;
}

-- The port and the second IP both get through, and still the label is the restricted one.
abbrev result : NatResult
result = record {
  facts =
      fact_of (utf8 "mapping") (utf8 "echo → udp 端口（首次）") (utf8 "198.51.100.7:")
      ∷ fact_of (utf8 "mapping") (utf8 "echo → udp 端口（同 socket 再次）") (utf8 "198.51.100.7:")
      ∷ fact_of (utf8 "mapping") (utf8 "echo → nat 端口（不同目标）") (utf8 "198.51.100.7:")
      ∷ fact_of (utf8 "filter") (utf8 "nat → udp 端口，回包来自异端口") (utf8 "198.51.100.7:")
      ∷ fact_of (utf8 "filter") (utf8 "nat → udp 端口，回包来自异 IP（second-ip）") []
      ∷ [];
  label = label_address_restricted;
  premise = single_ip_premise;
  confidence = utf8 "中";
  echo_received = true;
  nat_reply_received = true;
}

run_result : run_nat join info (utf8 "10.0.0.2") attempts ≡ some result
unfolding run_nat ip_filter nat_result facts_of send find_sent has_udp_kind reply_of nat_judgment
    bytes_beq utf8
run_result = refl

run_nat-IsJudged_example : IsJudged join info (utf8 "10.0.0.2") attempts result
run_nat-IsJudged_example = run_nat-IsJudged join info (utf8 "10.0.0.2") attempts result run_result

abbrev echo_payload : Bytes
echo_payload = session_id ++ udp_echo

abbrev source : UdpAddr
source = record { ip = utf8 "192.0.2.1"; port = 40000 }

echo_parsed : parse_udp_payload decode echo_payload ≡ some (session_id, udp_echo)
unfolding parse_udp_payload valid_session_id utf8
echo_parsed = refl

echo_fits : ltb_ℤ (max_payload (server_of []).cfg udp_echo) (pos (length echo_payload)) ≡ false
unfolding max_payload bytes_beq utf8
echo_fits = refl

echo_chosen : choose_replier (server_of []) udp_socket udp_echo ≡ some (udp_socket, utf8 "same")
unfolding choose_replier bytes_beq utf8
echo_chosen = refl

send-handle_udp_arrival_example :
    send (local_port (server_of []) udp_socket) udp_echo (record {
      wrote = true;
      received = true;
      pulled =
          pulled 9 session_id
            (handle_udp_arrival decode
              (env_at 7)
              udp_socket
              echo_payload
              source
              64
              (server_of [])).0;
    })
    ≡ some (record {
      src_ip = source.ip;
      src_port = source.port;
      reply_from = utf8 "same";
      received = true;
    })
unfolding lookup is_expired
send-handle_udp_arrival_example =
    send-handle_udp_arrival decode (env_at 7) udp_socket echo_payload source 64 9 (server_of [])
      session_id udp_echo (utf8 "same") udp_socket true (server_of-HoldsValid []) session_id-IsValid
      echo_parsed echo_fits echo_chosen (omega arith) refl
