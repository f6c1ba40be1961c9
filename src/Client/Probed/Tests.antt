-- ===== src/Client/Probed/Tests.antt =====
-- The view of three observations.
use netsee.Client.Probed.{
  add_ip, build_probe_result, equal_fold, exit_ips_of, has, ip_set, lower, traces_in,
  transparent_proxy_traces, with_source,
}
use netsee.Client.Probed.Views.{IsConfirmed, build_probe_result-IsConfirmed}
use netsee.Client.Types.{ProbeInfo}
use netsee.Prelude.{
  All, Bool, List, Option, [], false, if◌then◌else◌, none, refl, some, true, ℕ, ◌==◌, ◌∷◌, ◌≡◌,
}
use netsee.Prelude.Int.{pos}
use netsee.Prelude.Sort.{insert_string, leb_bytes, sort_strings}
use netsee.Prelude.Text.{Bytes, bytes_beq, utf8}
use netsee.Proto.Types.{Obs, obs_tcp}

abbrev info : ProbeInfo
info = record {
  protocol_version = utf8 "1";
  http_port = 8080;
  tls_port = 8443;
  udp_port = 8444;
  nat_port = 8445;
  extra_ports = 9000 ∷ [];
  second_ip = false;
  second_ip_addr = [];
  max_udp_pmtu = pos 9000;
}

abbrev at_port : Bytes → ℕ → Obs
at_port ip port = record {
  id = utf8 "o";
  kind = obs_tcp;
  session = utf8 "s";
  src_ip = ip;
  src_port = 40000;
  dst_port = port;
  ttl = 0;
  time = 0;
  http = none;
  tcp_info = none;
  tls = none;
  udp = none;
}

abbrev seen : List Obs
seen = at_port (utf8 "198.51.100.7") 8080 ∷ at_port [] 8443 ∷ at_port (utf8 "192.0.2.1") 9000 ∷ []

abbrev outcomes : ℕ → Option Bool
outcomes port = if port == 8445 then none else some true

sorted_exits : exit_ips_of seen ≡ utf8 "192.0.2.1" ∷ utf8 "198.51.100.7" ∷ []
unfolding exit_ips_of ip_set add_ip with_source has sort_strings insert_string leb_bytes bytes_beq
    utf8
sorted_exits = refl

traced :
    transparent_proxy_traces (record { key = utf8 "via"; value = utf8 "1.1 box" } ∷ [])
    ≡ utf8 "via: 1.1 box" ∷ []
unfolding transparent_proxy_traces traces_in equal_fold lower bytes_beq utf8
traced = refl

build_probe_result-IsConfirmed_example :
    All
      (IsConfirmed seen)
      (build_probe_result (utf8 "http://probe") info seen outcomes).connectivity
build_probe_result-IsConfirmed_example =
    build_probe_result-IsConfirmed (utf8 "http://probe") info seen outcomes
