-- ===== src/Probe/Lifecycle.antt =====
-- internal/probe/server.go: `Start`, which binds the sockets, and `Shutdown`.
pub mod Binding
mod Tests
use netsee.Prelude.{Bool, List, Option, [], false, if◌then◌else◌, true, ℕ, ◌*◌, ◌++◌, ◌∷◌}
use netsee.Prelude.Hosts.{net_join_host_port}
use netsee.Prelude.Int.{ℤ}
use netsee.Prelude.Text.{Bytes, is_empty}
use netsee.Probe.Server.{Config}

-- The names of the listeners in the order in which `Start` binds them.
pub data Listener : Type 0 where
  http_ln : Listener
  tls_ln : Listener
  udp_ln : Listener
  nat_ln : Listener
  extra_ln : ℕ → Listener

-- What the operating system holds open, and whether the channel `done` is closed.
pub record Sockets : Type 0 where
  pub opened : List Listener
  pub closed : List Listener
  pub done : Bool

-- The result of `Start`: the listener whose bind failed, or the sockets of a running server.
pub data Started : Type 0 where
  running : Sockets → Started
  refused : Listener → Sockets → Started

-- `closeAll`: every socket that was bound so far is closed.
close_all : Sockets → Sockets
close_all k = record k { opened = []; closed = k.opened ++ k.closed }

-- The binds in order; the parameter tells which of them succeed, by what is open: a port that is
-- named twice can be bound once.
pub bind_all : (List Listener → Listener → Bool) → List Listener → Sockets → Started
bind_all can_bind [] k = running k
bind_all can_bind (ln ∷ rest) k =
    let more = bind_all can_bind rest (record k { opened = k.opened ++ (ln ∷ []) }) in
    if can_bind k.opened ln then more else refused ln (close_all k)

pub extra_listeners : List ℕ → List Listener
extra_listeners [] = []
extra_listeners (p ∷ ports) = extra_ln p ∷ extra_listeners ports

pub start : (List Listener → Listener → Bool) → Config → Started
start can_bind cfg =
    bind_all can_bind (http_ln ∷ tls_ln ∷ udp_ln ∷ nat_ln ∷ extra_listeners cfg.extra_ports)
      (record { opened = []; closed = []; done = false })

-- `Shutdown`: only the first call finds the channel open. It closes the listeners in the order in
-- which they were bound.
pub shutdown : Sockets → Sockets
shutdown k = if k.done then k else record (close_all k) { done = true }

-- Where `Start` has a listener listen: the address of a TCP listener; the IP address and the port of
-- a UDP socket, where no address stands for all interfaces.
pub data ListenAt : Type 0 where
  tcp_at : Bytes → ListenAt
  udp_at : Option Bytes → ℕ → ListenAt

-- `net.ParseIP`, which `parseIP` passes on, is the parameter; none for a nil.
listen_at : (Bytes → Option Bytes) → Config → Listener → ListenAt
listen_at parse_ip cfg http_ln = tcp_at (net_join_host_port cfg.bind cfg.http_port)
listen_at parse_ip cfg tls_ln = tcp_at (net_join_host_port cfg.bind cfg.tls_port)
listen_at parse_ip cfg udp_ln = udp_at (parse_ip cfg.bind) cfg.udp_port
listen_at parse_ip cfg nat_ln =
    udp_at (parse_ip (if is_empty cfg.second_ip then cfg.bind else cfg.second_ip)) cfg.nat_port
listen_at parse_ip cfg (extra_ln p) = tcp_at (net_join_host_port cfg.bind p)

-- The limits of the `http.Server`; times in nanoseconds.
pub record HttpLimits : Type 0 where
  pub read_header_timeout : ℤ
  pub read_timeout : ℤ
  pub write_timeout : ℤ
  pub idle_timeout : ℤ
  pub max_header_bytes : ℕ

http_limits : Config → HttpLimits
http_limits cfg = record {
  read_header_timeout = cfg.read_timeout;
  read_timeout = cfg.read_timeout;
  write_timeout = cfg.read_timeout;
  idle_timeout = cfg.read_timeout;
  max_header_bytes = 64 * 1024;
}
