-- ===== src/Report/Tests.antt =====
-- The report of a small result.
use netsee.Client.Result.{Measurement, alone, with_direct}
use netsee.Client.Types.{Observation}
use netsee.Prelude.{Bool, [], false, none, refl, some, true, ◌∷◌, ◌≡◌}
use netsee.Prelude.Int.{pos, ℤ}
use netsee.Prelude.Text.{Bytes, bytes_beq, utf8}
use netsee.Report.{
  build, flags, has_blackhole, highlights, is_proxy, is_suspect, line, nat_line, stack_line,
}
use netsee.Report.Sections.{IsFaithfulReport, build-IsFaithfulReport}

abbrev seen : Observation
seen = record {
  kind = utf8 "tls";
  src_ip = utf8 "198.51.100.7";
  src_port = 40000;
  dst_port = 8443;
  mss = 1460;
  wscale = true;
  sack = true;
  ts = true;
  ecn = false;
  rtt_us = 1200;
  ja3 = utf8 "9b7dcdf3f997f1fb7b4409c94cb7ef36";
  ja4 = [];
  sni = [];
  reply_from = [];
  http_method = [];
  http_path = [];
  http_headers = [];
  http_traces = [];
}

abbrev measurement : Bool → Measurement
measurement tun = record {
  session = utf8 "00112233445566778899aabbccddeeff";
  started = pos 0;
  duration = pos 1000;
  local = record {
    hostname = utf8 "host";
    interfaces = [];
    default_route_v4 = utf8 "eth0";
    default_gw_v4 = utf8 "192.0.2.1";
    default_route_v6 = [];
    default_mtu = 1500;
    resolv_conf = none;
    route_source = utf8 "proc";
  };
  attribution = record {
    tun = tun;
    tun_interface = [];
    fake_ip = false;
    fake_ip_note = [];
    proxy_stack = none;
    udp = [];
    note = [];
  };
  public_ips = utf8 "198.51.100.7" ∷ [];
  probe = record {
    probe_url = utf8 "http://192.0.2.1:8080";
    protocol_ver = utf8 "1";
    info = none;
    observations = seen ∷ [];
    exit_ips = utf8 "198.51.100.7" ∷ [];
    connectivity = [];
  };
  nat = none;
  pmtu = some (record { facts = []; path_mtu = 1500; blackhole = false; note = [] });
  dns = none;
  reputation = none;
  notes = [];
}

tun_flag : highlights (measurement true) ≡ utf8 "流量经 TUN 接管，探针观测为代理出口（非本机直连）" ∷ []
unfolding highlights flags line stack_line nat_line has_blackhole is_suspect is_proxy bytes_beq utf8
tun_flag = refl

abbrev no_time : ℤ → Bytes
no_time t = []

build-IsFaithfulReport_example :
    IsFaithfulReport
      (with_direct (measurement true) (alone (measurement false)))
      (build no_time (with_direct (measurement true) (alone (measurement false))))
build-IsFaithfulReport_example =
    build-IsFaithfulReport no_time (with_direct (measurement true) (alone (measurement false)))
