-- ===== src/Probe/Sockets.antt =====
-- internal/probe/readudp_linux.go, tcpinfo_linux.go, readudp_other.go and tcpinfo_other.go: what the
-- probe reads of a socket. The
-- system calls and the parser of golang.org/x/sys/unix are parameters.
use Prim.Native.Nat.{bit_and}
mod Tests
use netsee.Prelude.{
  Bool, List, Option, [], get_or, if◌then◌else◌, none, not, some, ℕ, ◌&&◌, ◌==◌, ◌∷◌,
}
use netsee.Prelude.Text.{Bytes, is_empty}
use netsee.Proto.Types.{TcpInfo}

-- A control message: `Header.Level`, `Header.Type` and `Data`.
pub record ControlMessage : Type 0 where
  pub level : ℕ
  pub type_of : ℕ
  pub payload : Bytes

-- What `ReadMsgUDP` gives: the length, the bytes of control data, the source and the error.
pub record MsgRead (Src : Type 0) : Type 0 where
  pub n : ℕ
  pub oob : Bytes
  pub src : Src
  pub error : Option Bytes

-- `unix.IPPROTO_IP` and `unix.IP_TTL`
abbrev pub ipproto_ip : ℕ
ipproto_ip = 0

abbrev pub ip_ttl : ℕ
ip_ttl = 2

-- The loop over the messages, with the value of `ttl` so far.
ttl_from : ℕ → List ControlMessage → ℕ
ttl_from ttl [] = ttl
ttl_from ttl (m ∷ messages) =
    ttl_from (if m.level == ipproto_ip && m.type_of == ip_ttl then get_or m.payload 0 ttl else ttl)
      messages

-- `udpReader.read`: the length, the source, the TTL and the error.
pub read_udp :
    {Src : Type 0}
    → (Bytes → Option (List ControlMessage))
    → MsgRead Src
    → ℕ × Src × ℕ × Option Bytes
read_udp parse r =
    let ttl : ℕ = elim (parse r.oob) [ none ↦ 0 | some messages ↦ ttl_from 0 messages ] in
    elim r.error [
      | some e ↦ (r.n, r.src, 0, some e)
      | none ↦ if is_empty r.oob then (r.n, r.src, 0, none) else (r.n, r.src, ttl, none)
    ]

-- `udpReader.read` on other systems: what `ReadFromUDP` gives, with no TTL.
read_udp_other : {Src : Type 0} → ℕ → Src → Option Bytes → ℕ × Src × ℕ × Option Bytes
read_udp_other n src error = (n, src, 0, error)

-- The fields of the kernel's TCP_INFO that are read.
pub record KernelTcpInfo : Type 0 where
  pub options : ℕ
  pub snd_mss : ℕ
  pub rtt : ℕ

abbrev pub opt_timestamps : ℕ
opt_timestamps = 1

abbrev pub opt_sack : ℕ
opt_sack = 2

abbrev pub opt_wscale : ℕ
opt_wscale = 4

abbrev pub opt_ecn : ℕ
opt_ecn = 8

-- `info.Options & bit != 0`
has_option : ℕ → ℕ → Bool
has_option options bit = not (bit_and options bit == 0)

-- `tcpInfoFromConn`: none where a system call fails.
pub tcp_info_from_conn : Option KernelTcpInfo → Option TcpInfo
tcp_info_from_conn none = none
tcp_info_from_conn (some info) = some (record {
  mss = info.snd_mss;
  wscale = has_option info.options opt_wscale;
  sack = has_option info.options opt_sack;
  ts = has_option info.options opt_timestamps;
  ecn = has_option info.options opt_ecn;
  rtt_us = info.rtt;
})

-- `tcpInfoFromConn` on other systems, which gives an error.
tcp_info_other : Option TcpInfo
tcp_info_other = none

-- What stands under `connKey` in the context of a request: nothing, a connection that is no TCP
-- connection, or one with what the kernel gives for it.
pub data ContextConn : Type 0 where
  no_conn : ContextConn
  other_conn : ContextConn
  tcp_conn : Option KernelTcpInfo → ContextConn

-- `Server.tcpInfo`
pub request_tcp_info : ContextConn → Option TcpInfo
request_tcp_info no_conn = none
request_tcp_info other_conn = none
request_tcp_info (tcp_conn info) = tcp_info_from_conn info
