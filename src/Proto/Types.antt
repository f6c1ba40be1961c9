-- ===== src/Proto/Types.antt =====
-- internal/proto/types.go. A Go string is its bytes, a pointer that may be nil is an `Option`,
-- and an instant is a number of nanoseconds.
use netsee.Prelude.{Bool, List, Option, ℕ}
use netsee.Prelude.Int.{ℤ}
use netsee.Prelude.Text.{Bytes, utf8}

pub record Header : Type 0 where
  pub key : Bytes
  pub value : Bytes

pub record HttpObs : Type 0 where
  pub method : Bytes
  pub path : Bytes
  pub proto : Bytes
  pub headers : List Header

pub record TcpInfo : Type 0 where
  pub mss : ℕ
  pub wscale : Bool
  pub sack : Bool
  pub ts : Bool
  pub ecn : Bool
  pub rtt_us : ℕ

pub record TlsFingerprint : Type 0 where
  pub ja3 : Bytes
  pub ja4 : Bytes
  pub sni : Bytes

pub record UdpObs : Type 0 where
  pub kind : Bytes
  pub reply_from : Bytes
  pub payload_len : ℕ

pub record Obs : Type 0 where
  pub id : Bytes
  pub kind : Bytes
  pub session : Bytes
  pub src_ip : Bytes
  pub src_port : ℕ
  pub dst_port : ℕ
  pub ttl : ℕ
  pub time : ℕ
  pub http : Option HttpObs
  pub tcp_info : Option TcpInfo
  pub tls : Option TlsFingerprint
  pub udp : Option UdpObs

pub record Info : Type 0 where
  pub protocol_version : Bytes
  pub http_port : ℕ
  pub tls_port : ℕ
  pub udp_port : ℕ
  pub nat_port : ℕ
  pub extra_ports : List ℕ
  pub second_ip : Bool
  pub second_ip_addr : Bytes
  pub max_udp_pmtu : ℤ

-- The constants of `ObsKind`.
abbrev pub obs_http : Bytes
obs_http = utf8 "http"

abbrev pub obs_tcp : Bytes
obs_tcp = utf8 "tcp"

abbrev pub obs_udp : Bytes
obs_udp = utf8 "udp"

abbrev pub obs_tls : Bytes
obs_tls = utf8 "tls"

-- The constants of `UDPKind`.
abbrev pub udp_echo : Bytes
udp_echo = utf8 "echo"

abbrev pub udp_nat : Bytes
udp_nat = utf8 "nat"

abbrev pub udp_reach : Bytes
udp_reach = utf8 "reach"

abbrev pub udp_pmtu : Bytes
udp_pmtu = utf8 "pmtu"
