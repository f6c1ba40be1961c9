-- ===== src/Report/Items.antt =====
-- internal/report/report.go: the structures of the report.
use netsee.Client.Nat.{NatFact}
use netsee.Client.Result.{Note}
use netsee.Client.Types.{Observation, PortCheck}
use netsee.Prelude.{Bool, List, Option, ℕ}
use netsee.Prelude.Int.{ℤ}
use netsee.Prelude.Text.{Bytes, utf8}
use netsee.Proto.Types.{Header}

-- The layer of an item (exit, path or end), and where it was observed.
pub record ItemMeta : Type 0 where
  pub layer : Bytes
  pub observed_by : Bytes

abbrev pub layer_exit : Bytes
layer_exit = utf8 "exit"

abbrev pub layer_path : Bytes
layer_path = utf8 "path"

abbrev pub layer_end : Bytes
layer_end = utf8 "end"

-- A float64 of milliseconds is kept as the microseconds that it is a thousandth of.
pub record Overview : Type 0 where
  pub public_ips : List Bytes
  pub exit_count : ℕ
  pub nat_type : Bytes
  pub rtt_us : ℕ
  pub highlights : List Bytes

pub record Local : Type 0 where
  pub default_route_v4 : Bytes
  pub default_gw_v4 : Bytes
  pub default_route_v6 : Bytes
  pub mtu : ℕ
  pub interfaces : ℕ
  pub nameservers : List Bytes
  pub tun : Bool
  pub tun_interface : Bytes
  pub fake_ip : Bool
  pub fake_ip_note : Bytes
  pub proxy_stack : Bytes
  pub udp : Bytes
  pub note : Bytes

pub record NatItem : Type 0 where
  pub meta : ItemMeta
  pub facts : List NatFact
  pub label : Bytes
  pub premise : Bytes
  pub confidence : Bytes

pub record TcpItem : Type 0 where
  pub meta : ItemMeta
  pub mss : ℕ
  pub wscale : Bool
  pub sack : Bool
  pub ts : Bool
  pub ecn : Bool
  pub rtt_us : ℕ

pub record TlsItem : Type 0 where
  pub meta : ItemMeta
  pub ja3 : Bytes
  pub ja4 : Bytes
  pub sni : Bytes

pub record HttpItem : Type 0 where
  pub meta : ItemMeta
  pub method : Bytes
  pub path : Bytes
  pub headers : List Header
  pub traces : List Bytes

pub record MtuItem : Type 0 where
  pub meta : ItemMeta
  pub path_mtu : ℕ
  pub blackhole : Bool
  pub note : Bytes

pub record DnsItem : Type 0 where
  pub meta : ItemMeta
  pub host : Bytes
  pub system_answers : List Bytes
  pub doh_answers : List Bytes
  pub doh_status : Bytes
  pub judgment : Bytes
  pub premise : Bytes

pub record ReputationItem : Type 0 where
  pub meta : ItemMeta
  pub country : Bytes
  pub region : Bytes
  pub city : Bytes
  pub isp : Bytes
  pub as_number : Bytes
  pub proxy : Bool
  pub hosting : Bool
  pub source : Bytes
  pub note : Bytes

-- The fields of `Report` but for `Direct`; the duration in nanoseconds.
pub record Sheet : Type 0 where
  pub session : Bytes
  pub generated : Bytes
  pub duration : ℤ
  pub honest_context : Bytes
  pub overview : Overview
  pub local : Local
  pub nat : Option NatItem
  pub observations : List Observation
  pub tcp : Option TcpItem
  pub tls : Option TlsItem
  pub http : Option HttpItem
  pub ports : List PortCheck
  pub mtu : Option MtuItem
  pub dns : Option DnsItem
  pub reputation : Option ReputationItem
  pub notes : List Note

-- `Report`: with no `Direct`, or with the report of the direct measurement.
pub data Report : Type 0 where
  sheet : Sheet → Report
  with_direct_sheet : Sheet → Report → Report
