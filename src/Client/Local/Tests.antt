-- ===== src/Client/Local/Tests.antt =====
-- A host with one interface, of a system on which no routes are read.
use netsee.Client.Local.{
  LocalSystem, NetInterface, collect_interfaces, collect_local, collect_other, interface_info,
  interface_infos, other_system, read_resolv_conf,
}
use netsee.Client.Types.{succeeded}
use netsee.Prelude.{[], false, none, refl, some, true, ◌∷◌, ◌≡◌}
use netsee.Prelude.Text.{utf8}

abbrev eth0 : NetInterface
eth0 = record { name = utf8 "eth0"; mtu = 1500; flags = 3; addrs = some (utf8 "10.0.0.2/24" ∷ []) }

abbrev host : LocalSystem
host = record {
  hostname = utf8 "h";
  interfaces = some (eth0 ∷ []);
  route_file = none;
  ipv6_route_file = none;
  resolv_file = none;
  mtu_of = λ name. some 1400;
}

collect_local-host :
    collect_local other_system host
    ≡ succeeded (record {
      hostname = utf8 "h";
      interfaces =
          record {
            name = utf8 "eth0";
            mtu = 1500;
            up = true;
            loopback = false;
            addrs = utf8 "10.0.0.2/24" ∷ [];
          }
          ∷ [];
      default_route_v4 = [];
      default_gw_v4 = [];
      default_route_v6 = [];
      default_mtu = 0;
      resolv_conf = none;
      route_source = utf8 "unsupported";
    })
unfolding collect_local collect_other collect_interfaces interface_infos interface_info
    read_resolv_conf utf8
collect_local-host = refl
