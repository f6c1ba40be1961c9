-- ===== src/Client/Local.antt =====
-- internal/client/local_linux.go, local_other.go and local.go: the local network environment, from what the
-- operating system gives.
pub mod Collected
mod Tests
use Prim.Native.Nat.{bit_and}
use netsee.Client.ResolvConf.{parse_resolv_conf}
use netsee.Client.Routes.{parse_physical_v4, parse_route_v4, parse_route_v6}
use netsee.Client.Types.{Fallible, InterfaceInfo, LocalInfo, ResolvConf, failed_with, succeeded}
use netsee.Prelude.{List, Option, [], if◌then◌else◌, none, not, some, ℕ, ◌==◌, ◌∷◌}
use netsee.Prelude.Options.{◌>>=◌}
use netsee.Prelude.Text.{Bytes, is_empty, utf8}
use netsee.Prelude.Words.{atoi_value}

-- An interface of the package `net`; its addresses in text, none where they cannot be read.
pub record NetInterface : Type 0 where
  pub name : Bytes
  pub mtu : ℕ
  pub flags : ℕ
  pub addrs : Option (List Bytes)

-- `net.FlagUp` and `net.FlagLoopback`
abbrev flag_up : ℕ
flag_up = 1

abbrev flag_loopback : ℕ
flag_loopback = 4

interface_info : NetInterface → InterfaceInfo
interface_info f = record {
  name = f.name;
  mtu = f.mtu;
  up = not (bit_and f.flags flag_up == 0);
  loopback = not (bit_and f.flags flag_loopback == 0);
  addrs = elim f.addrs [ none ↦ [] | some addrs ↦ addrs ];
}

interface_infos : List NetInterface → List InterfaceInfo
interface_infos [] = []
interface_infos (f ∷ ifaces) = interface_info f ∷ interface_infos ifaces

-- `collectInterfaces`
collect_interfaces : Option (List NetInterface) → List InterfaceInfo
collect_interfaces none = []
collect_interfaces (some ifaces) = interface_infos ifaces

-- The files and the calls that `CollectLocal` reads; none where a read fails.
pub record LocalSystem : Type 0 where
  pub hostname : Bytes
  pub interfaces : Option (List NetInterface)
  pub route_file : Option Bytes
  pub ipv6_route_file : Option Bytes
  pub resolv_file : Option Bytes
  pub mtu_of : Bytes → Option ℕ

-- What the build is for: one of the two versions of `CollectLocal` and `PhysicalDefaultV4`.
pub data Platform : Type 0 where
  linux : Platform
  windows : Platform
  other_system : Platform

-- `defaultRouteV4` and `defaultRouteV6`; none is an error.
default_route_v4 : LocalSystem → Option (Bytes × Bytes)
default_route_v4 sys = do file ← sys.route_file; parse_route_v4 atoi_value file

default_route_v6 : LocalSystem → Option Bytes
default_route_v6 sys = do file ← sys.ipv6_route_file; parse_route_v6 file

or_failure : Bytes → Option (Bytes × Bytes) → Fallible (Bytes × Bytes)
or_failure e none = failed_with e
or_failure e (some route) = succeeded route

-- `PhysicalDefaultV4`, with the text of the error that Linux gives.
pub physical_default_v4 : Platform → Bytes → LocalSystem → Fallible (Bytes × Bytes)
unfolding or_failure
physical_default_v4 linux e sys =
    or_failure e (do file ← sys.route_file; parse_physical_v4 atoi_value file)
physical_default_v4 _ e sys = failed_with (utf8 "物理默认路由解析仅在 Linux 支持")

-- `readResolvConf`. A panic of the parser would be none too; there is no such panic.
read_resolv_conf : Platform → LocalSystem → Option ResolvConf
read_resolv_conf windows sys = none
read_resolv_conf _ sys = do file ← sys.resolv_file; parse_resolv_conf file

or_nothing : Option (Bytes × Bytes) → Bytes × Bytes
or_nothing none = ([], [])
or_nothing (some route) = route

-- The MTU of the interface; 0 where the interface is not found.
mtu_at : LocalSystem → Bytes → ℕ
mtu_at sys name = elim (sys.mtu_of name) [ none ↦ 0 | some mtu ↦ mtu ]

-- `CollectLocal` of local_linux.go
collect_linux : LocalSystem → LocalInfo
unfolding default_route_v4 default_route_v6 read_resolv_conf or_nothing mtu_at collect_interfaces
collect_linux sys =
    let (v4, gw) = or_nothing (default_route_v4 sys) in
    let v6 : Bytes = elim (default_route_v6 sys) [ none ↦ [] | some name ↦ name ] in
    record {
      hostname = sys.hostname;
      interfaces = collect_interfaces sys.interfaces;
      default_route_v4 = v4;
      default_gw_v4 = gw;
      default_route_v6 = v6;
      default_mtu =
          if not (is_empty v4)
          then mtu_at sys v4
          else if not (is_empty v6)
          then mtu_at sys v6
          else 0;
      resolv_conf = read_resolv_conf linux sys;
      route_source = utf8 "proc";
    }

-- `CollectLocal` of local_other.go
collect_other : Platform → LocalSystem → LocalInfo
unfolding read_resolv_conf collect_interfaces
collect_other platform sys = record {
  hostname = sys.hostname;
  interfaces = collect_interfaces sys.interfaces;
  default_route_v4 = [];
  default_gw_v4 = [];
  default_route_v6 = [];
  default_mtu = 0;
  resolv_conf = read_resolv_conf platform sys;
  route_source = utf8 "unsupported";
}

-- `CollectLocal`, which never gives an error.
pub collect_local : Platform → LocalSystem → Fallible LocalInfo
unfolding collect_linux collect_other
collect_local linux sys = succeeded (collect_linux sys)
collect_local platform sys = succeeded (collect_other platform sys)
