-- ===== src/Probe/Server/Tests.antt =====
-- Addresses of both families.
use netsee.Prelude.{arith, none, refl, ◌≡◌}
use netsee.Prelude.Hosts.{has_byte, net_join_host_port}
use netsee.Prelude.Hosts.RoundTrip.{IsBare}
use netsee.Prelude.Text.{Bytes, utf8}
use netsee.Probe.Server.{blank_obs, peer_of, with_peer}
use netsee.Probe.Server.Samples.{env_at, session_id}
use netsee.Probe.Server.Source.{with_peer-peer_of}
use netsee.Proto.Types.{obs_http}

abbrev six : Bytes
six = utf8 "2001:db8::1"

six-IsBare : IsBare six
unfolding has_byte utf8
six-IsBare = record { no_left = refl; no_right = refl }

with_peer-peer_of_example :
    ((with_peer
        (peer_of (net_join_host_port six 40000) none)
        (blank_obs (env_at 1) obs_http session_id 8080)).src_ip
      ≡ six)
    × ((with_peer
          (peer_of (net_join_host_port six 40000) none)
          (blank_obs (env_at 1) obs_http session_id 8080)).src_port
        ≡ 40000)
with_peer-peer_of_example =
    with_peer-peer_of six 40000 none (blank_obs (env_at 1) obs_http session_id 8080) six-IsBare
      (omega arith)
