-- ===== src/Report/Text/Tests.antt =====
-- A small report as text.
use netsee.Prelude.{[], false, none, refl, some, true, ◌∷◌, ◌≡◌}
use netsee.Prelude.Int.{pos}
use netsee.Prelude.Text.{utf8}
use netsee.Prelude.Words.{itoa}
use netsee.Report.Items.{Sheet}
use netsee.Report.Text.{overview_lines}
use netsee.Report.Text.Direct.{path_mtu_str}
use netsee.Report.Text.Format.{Floats, cat, join_or_na}

abbrev floats : Floats
floats = record { seconds = λ d. utf8 "1.0"; millis = λ us. utf8 "2.50" }

abbrev small : Sheet
small = record {
  session = utf8 "00112233445566778899aabbccddeeff";
  generated = utf8 "now";
  duration = pos 1000000000;
  honest_context = utf8 "c";
  overview = record {
    public_ips = [];
    exit_count = 0;
    nat_type = utf8 "symmetric";
    rtt_us = 2500;
    highlights = utf8 "none" ∷ [];
  };
  local = record {
    default_route_v4 = [];
    default_gw_v4 = [];
    default_route_v6 = [];
    mtu = 1500;
    interfaces = 1;
    nameservers = [];
    tun = false;
    tun_interface = [];
    fake_ip = false;
    fake_ip_note = [];
    proxy_stack = [];
    udp = [];
    note = [];
  };
  nat = some (record {
    meta = record { layer = utf8 "exit"; observed_by = utf8 "probe" };
    facts =
        record {
          kind = utf8 "mapping";
          detail = utf8 "echo";
          observed_src = utf8 "192.0.2.1:4000";
          reply_from = utf8 "same";
          received = true;
        }
        ∷ [];
    label = utf8 "symmetric";
    premise = [];
    confidence = utf8 "m";
  });
  observations = [];
  tcp = none;
  tls = none;
  http = none;
  ports = [];
  mtu = none;
  dns = none;
  reputation = none;
  notes = record { level = utf8 "info"; text = utf8 "n" } ∷ [];
}

rtt_line :
    overview_lines floats small.overview
    ≡ utf8 "一、概览"
      ∷ utf8 "  公网出口 IP: n/a"
      ∷ utf8 "  出口数: 0"
      ∷ utf8 "  NAT 类型: symmetric"
      ∷ utf8 "  探针侧 RTT: 2.50 ms"
      ∷ utf8 "  突出发现:"
      ∷ utf8 "    - none"
      ∷ []
      ∷ []
unfolding overview_lines utf8 itoa join_or_na cat
rtt_line = refl

path_mtu_str_absent : path_mtu_str none ≡ []
unfolding path_mtu_str
path_mtu_str_absent = refl
