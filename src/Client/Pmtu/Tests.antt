-- ===== src/Client/Pmtu/Tests.antt =====
-- The search on a path that lets 1472 bytes through.
use netsee.Client.Pmtu.{PmtuNet, run_pmtu, sent, set_pmtu_disc_do, set_pmtu_disc_other, too_big}
use netsee.Client.Pmtu.Search.{MeasuresLargest, run_pmtu-MeasuresLargest}
use netsee.Client.Types.{ProbeInfo}
use netsee.Prelude.{[], false, if◌then◌else◌, leb, none, refl, true, ◌∷◌, ◌≡◌, ◌≢◌}
use netsee.Prelude.Int.{pos}
use netsee.Prelude.Text.{Bytes, utf8}

abbrev info : ProbeInfo
info = record {
  protocol_version = utf8 "1";
  http_port = 8080;
  tls_port = 8443;
  udp_port = 8444;
  nat_port = 8445;
  extra_ports = [];
  second_ip = false;
  second_ip_addr = [];
  max_udp_pmtu = pos 9000;
}

abbrev net : PmtuNet
net = record {
  df_error = none;
  write = λ i size. if leb size 1472 then sent else too_big;
  final_write = true;
  arrived = utf8 "{}" ∷ [];
}

abbrev id : Bytes
id = utf8 "00112233445566778899aabbccddeeff"

run_pmtu-MeasuresLargest_example :
    MeasuresLargest id info net 1472 (λ i size. refl) refl (run_pmtu id info net)
run_pmtu-MeasuresLargest_example = run_pmtu-MeasuresLargest id info net 1472 (λ i size. refl) refl

set_pmtu_disc_do_ok : set_pmtu_disc_do none none none ≡ none
unfolding set_pmtu_disc_do
set_pmtu_disc_do_ok = refl

set_pmtu_disc_elsewhere : set_pmtu_disc_other ≢ none
unfolding set_pmtu_disc_other
set_pmtu_disc_elsewhere e = cc
