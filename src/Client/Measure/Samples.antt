-- ===== src/Client/Measure/Samples.antt =====
-- A run in which no step gets through but the discovery, for the tests.
use netsee.Client.Local.{linux}
use netsee.Client.Nat.{Attempt}
use netsee.Client.Pmtu.{write_error}
use netsee.Client.Session.{ProbeSession, http_failed, http_status}
use netsee.Client.Types.{ProbeInfo, failed_with, succeeded}
use netsee.Client.World.{Libraries, Meets, RunConfig}
use netsee.Prelude.{[], false, none, some, true, ◌∷◌}
use netsee.Prelude.Int.{pos}
use netsee.Prelude.Text.{Bytes, utf8}

abbrev pub info : ProbeInfo
info = record {
  protocol_version = utf8 "1";
  http_port = 8080;
  tls_port = 8443;
  udp_port = 8444;
  nat_port = 8445;
  extra_ports = 9000 ∷ [];
  second_ip = false;
  second_ip_addr = [];
  max_udp_pmtu = pos 9000;
}

abbrev pub libraries : Libraries
libraries = record {
  parse_addr = λ s. none;
  parse_url = λ s. some (utf8 "192.0.2.1");
  parse_ip = λ s. some false;
  quote = λ s. s;
  decode_info = λ s. succeeded info;
  decode_obs = λ s. succeeded [];
  decode_answers = λ s. succeeded [];
  decode_api = λ s. failed_with (utf8 "no");
  decode_ipinfo = λ s. none;
}

abbrev lost : Attempt
lost = record { wrote = true; received = false; pulled = none }

-- One route, over eth0.
abbrev route_text : Bytes
route_text = utf8 "eth0 00000000 0100000A 0003 0 0 0 00000000 0 0 0"

abbrev pub meets : Meets
meets = record {
  fresh_id = utf8 "00112233445566778899aabbccddeeff";
  info_reply = http_status 200 [];
  started = pos 0;
  platform = linux;
  echo_reply = http_failed (utf8 "no");
  tls_dial = some (utf8 "no");
  handshake = none;
  local_ip = [];
  attempts = record {
    first = lost;
    again = lost;
    other_port = lost;
    filter_port = lost;
    filter_ip = lost;
  };
  nat_error = utf8 "no";
  pmtu_net = record {
    df_error = none;
    write = λ n size. write_error;
    final_write = false;
    arrived = [];
  };
  pmtu_error = utf8 "no";
  resolved = none;
  doh_fetch = λ url. http_failed (utf8 "no");
  dns_error = utf8 "no";
  pull_start = 0;
  polls = λ past n. record { reply = http_status 200 []; now = 1; cancelled = none };
  reach_dial = λ past p. none;
  reach_write = λ past p. none;
  api_get = λ url. http_failed (utf8 "no");
  ipinfo_get = λ header url. http_failed (utf8 "no");
  duration = pos 0;
  system = record {
    hostname = [];
    interfaces = none;
    route_file = some route_text;
    ipv6_route_file = none;
    resolv_file = none;
    mtu_of = λ name. none;
  };
  route_error = utf8 "no";
  del_works = true;
  add_error = none;
}

abbrev pub sess : ProbeSession
sess = record {
  id = utf8 "00112233445566778899aabbccddeeff";
  probe = utf8 "http://192.0.2.1:8080";
  info = info;
}

abbrev pub config : RunConfig
config = record {
  probe_url = utf8 "http://192.0.2.1:8080";
  timeout = pos 0;
  doh_url = [];
  dns_host = [];
  ipinfo_token = [];
  ip_api_base = [];
  direct = true;
}
