-- ===== src/Client/Attribution/Tests.antt =====
-- The attribution at concrete inputs.
use netsee.Client.Attribution.{Attribution, Measured, finalize_attribution, is_tun_interface}
use netsee.Client.Attribution.Honest.{IsHonest, finalize_attribution-IsHonest}
use netsee.Client.Types.{Observation}
use netsee.Prelude.{List, [], false, none, refl, some, true, ◌∷◌, ◌≡◌}
use netsee.Prelude.Text.{Bytes, has_prefix, utf8}

tun_names : (is_tun_interface (utf8 "utun3") ≡ true) × (is_tun_interface (utf8 "eth0") ≡ false)
unfolding is_tun_interface has_prefix utf8
tun_names = (refl, refl)

abbrev seen : Bytes → Observation
seen fingerprint = record {
  kind = utf8 "tls";
  src_ip = utf8 "198.51.100.7";
  src_port = 40000;
  dst_port = 8443;
  mss = 0;
  wscale = false;
  sack = false;
  ts = false;
  ecn = false;
  rtt_us = 0;
  ja3 = fingerprint;
  ja4 = [];
  sni = [];
  reply_from = [];
  http_method = [];
  http_path = [];
  http_headers = [];
  http_traces = [];
}

abbrev fingerprints : List Observation
fingerprints = seen [] ∷ seen (utf8 "9b7dcdf3f997f1fb7b4409c94cb7ef36") ∷ []

abbrev behind_tun : Attribution
behind_tun = record {
  tun = true;
  tun_interface = utf8 "utun3";
  fake_ip = false;
  fake_ip_note = [];
  proxy_stack = none;
  udp = [];
  note = [];
}

abbrev measured : Measured
measured = record {
  dns_fake_ip = some true;
  observations = fingerprints;
  connectivity =
      record {
        port = 8080;
        proto = utf8 "tcp";
        connected = true;
        probe_saw = true;
        consistent = true;
      }
      ∷ [];
  nat_echo = some false;
}

finalize_attribution-IsHonest_example :
    IsHonest behind_tun measured (finalize_attribution behind_tun measured)
finalize_attribution-IsHonest_example = finalize_attribution-IsHonest behind_tun measured refl refl
