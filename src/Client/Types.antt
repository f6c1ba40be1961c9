-- ===== src/Client/Types.antt =====
-- internal/client: the records of result.go, local.go and reputation.go.
use netsee.Prelude.{Bool, List, Option, ℕ}
use netsee.Prelude.Int.{ℤ}
use netsee.Prelude.Text.{Bytes}
use netsee.Proto.Types.{Header}

-- The client's copy of `proto.Info`.
pub record ProbeInfo : Type 0 where
  pub protocol_version : Bytes
  pub http_port : ℕ
  pub tls_port : ℕ
  pub udp_port : ℕ
  pub nat_port : ℕ
  pub extra_ports : List ℕ
  pub second_ip : Bool
  pub second_ip_addr : Bytes
  pub max_udp_pmtu : ℤ

-- One fact of the probe about a connection; a field that does not apply is at its zero value.
pub record Observation : Type 0 where
  pub kind : Bytes
  pub src_ip : Bytes
  pub src_port : ℕ
  pub dst_port : ℕ
  pub mss : ℕ
  pub wscale : Bool
  pub sack : Bool
  pub ts : Bool
  pub ecn : Bool
  pub rtt_us : ℕ
  pub ja3 : Bytes
  pub ja4 : Bytes
  pub sni : Bytes
  pub reply_from : Bytes
  pub http_method : Bytes
  pub http_path : Bytes
  pub http_headers : List Header
  pub http_traces : List Bytes

-- One client-side attempt with what the probe confirms of it.
pub record PortCheck : Type 0 where
  pub port : ℕ
  pub proto : Bytes
  pub connected : Bool
  pub probe_saw : Bool
  pub consistent : Bool

-- internal/client/local.go: what `CollectLocal` found.
pub record InterfaceInfo : Type 0 where
  pub name : Bytes
  pub mtu : ℕ
  pub up : Bool
  pub loopback : Bool
  pub addrs : List Bytes

pub record ResolvConf : Type 0 where
  pub nameservers : List Bytes
  pub search : List Bytes

pub record LocalInfo : Type 0 where
  pub hostname : Bytes
  pub interfaces : List InterfaceInfo
  pub default_route_v4 : Bytes
  pub default_gw_v4 : Bytes
  pub default_route_v6 : Bytes
  pub default_mtu : ℕ
  pub resolv_conf : Option ResolvConf
  pub route_source : Bytes

-- internal/client/reputation.go
pub record ReputationResult : Type 0 where
  pub ip : Bytes
  pub country : Bytes
  pub region : Bytes
  pub city : Bytes
  pub isp : Bytes
  pub org : Bytes
  pub as_number : Bytes
  pub proxy : Bool
  pub hosting : Bool
  pub source : Bytes
  pub note : Bytes

-- A value, or the text of an error.
pub data Fallible {ℓ} (A : Type ℓ) : Type ℓ where
  succeeded : A → Fallible A
  failed_with : Bytes → Fallible A
