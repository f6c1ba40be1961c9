-- ===== src/Probe/Server.antt =====
-- internal/probe/server.go: the configuration and the state of the probe.
pub mod Defaults
pub mod Registry
pub mod Source
mod Tests
pub mod Samples
use netsee.Prelude.{Bool, List, Option, [], if◌then◌else◌, none, not, some, ℕ, ◌&&◌, ◌*◌}
use netsee.Prelude.Hosts.{net_split_host_port}
use netsee.Prelude.Int.{leb_ℤ, pos, pos_part, ℤ}
use netsee.Prelude.Text.{Bytes, is_empty, utf8}
use netsee.Prelude.Words.{strconv_atoi}
use netsee.Proto.Store.{Store, append, new_store}
use netsee.Proto.Types.{Info, Obs, TcpInfo}

-- Durations are in nanoseconds.
pub record Config : Type 0 where
  pub bind : Bytes
  pub http_port : ℕ
  pub tls_port : ℕ
  pub udp_port : ℕ
  pub nat_port : ℕ
  pub extra_ports : List ℕ
  pub second_ip : Bytes
  pub ttl : ℤ
  pub max_sessions : ℤ
  pub max_udp : ℤ
  pub max_udp_pmtu : ℤ
  pub read_timeout : ℤ

-- `x == 0`
abbrev pub is_zero : ℤ → Bool
is_zero x = leb_ℤ x (pos 0) && leb_ℤ (pos 0) x

abbrev pub nanos_per_second : ℕ
nanos_per_second = 1_000_000_000

unfoldable pub apply_defaults : Config → Config
apply_defaults cfg = record cfg {
  bind = if is_empty cfg.bind then utf8 "0.0.0.0" else cfg.bind;
  ttl = if is_zero cfg.ttl then pos (5 * 60 * nanos_per_second) else cfg.ttl;
  max_sessions = if is_zero cfg.max_sessions then pos 10000 else cfg.max_sessions;
  max_udp = if is_zero cfg.max_udp then pos 2048 else cfg.max_udp;
  max_udp_pmtu = if is_zero cfg.max_udp_pmtu then pos 9000 else cfg.max_udp_pmtu;
  read_timeout = if is_zero cfg.read_timeout then pos (10 * nanos_per_second) else cfg.read_timeout;
}

-- The state that the handlers share: `infoCache` is filled by `Start`.
pub record Server : Type 0 where
  pub cfg : Config
  pub store : Store
  pub info : Info

-- The ports that the bound sockets report.
pub record Bound : Type 0 where
  pub http : ℕ
  pub tls : ℕ
  pub udp : ℕ
  pub nat : ℕ
  pub extra : List ℕ

pub build_info : Config → Bound → Info
build_info cfg b = record {
  protocol_version = utf8 "1";
  http_port = b.http;
  tls_port = b.tls;
  udp_port = b.udp;
  nat_port = b.nat;
  extra_ports = b.extra;
  second_ip = not (is_empty cfg.second_ip);
  second_ip_addr = cfg.second_ip;
  max_udp_pmtu = cfg.max_udp_pmtu;
}

-- `New`, and what `Start` adds once the sockets are bound.
unfoldable pub started : Config → Bound → Server
started cfg b =
    let cfg' = apply_defaults cfg in
    record { cfg = cfg'; store = new_store cfg'.ttl cfg'.max_sessions; info = build_info cfg' b }

-- What a handler takes from the outside: a fresh id and two readings of the clock, for the
-- observation and for the registry.
pub record Env : Type 0 where
  pub fresh_id : Bytes
  pub time : ℕ
  pub now : ℕ

-- An observation with no part of its own yet.
unfoldable pub blank_obs : Env → Bytes → Bytes → ℕ → Obs
blank_obs e kind session dst_port = record {
  id = e.fresh_id;
  kind = kind;
  session = session;
  src_ip = [];
  src_port = 0;
  dst_port = dst_port;
  ttl = 0;
  time = e.time;
  http = none;
  tcp_info = none;
  tls = none;
  udp = none;
}

-- A peer's address as `splitHostPort` reads it, and its TCP_INFO: none where the call fails.
pub record Peer : Type 0 where
  pub address : Option (Bytes × ℕ)
  pub tcp_info : Option TcpInfo

with_address : Option (Bytes × ℕ) → Obs → Obs
with_address none o = o
with_address (some (host, port)) o = record o { src_ip = host; src_port = port }

with_tcp_info : Option TcpInfo → Obs → Obs
with_tcp_info none o = o
with_tcp_info (some ti) o = record o { tcp_info = some ti }

pub with_peer : Peer → Obs → Obs
unfolding with_address with_tcp_info
with_peer p o = with_tcp_info p.tcp_info (with_address p.address o)

-- `s.store.Append(session, obs)`, its answer dropped.
unfoldable pub record_obs : Env → Bytes → Obs → Server → Server
record_obs e session o s = record s { store = (append e.now session o s.store).0 }

-- `splitHostPort`; none for an error.
unfoldable pub split_host_port : Bytes → Option (Bytes × ℤ)
split_host_port addr = elim (net_split_host_port addr) [
  | none ↦ none
  | some (h, p) ↦ elim (strconv_atoi p) [ none ↦ none | some n ↦ some (h, n) ]
]

-- The peer whose `RemoteAddr` is the text, which has no negative port.
unfoldable pub peer_of : Bytes → Option TcpInfo → Peer
peer_of addr tcp_info = record {
  address = elim (split_host_port addr) [ none ↦ none | some (h, n) ↦ some (h, pos_part n) ];
  tcp_info = tcp_info;
}
