-- ===== src/Probe/Udp.antt =====
-- internal/probe/udp.go: datagrams at the echo port and at the NAT reply port.
pub mod Limits
pub mod Replies
pub mod Loop
mod Tests
use netsee.Prelude.{
  Bool, List, Option, [], if◌then◌else◌, length, none, not, some, ℕ, ◌==◌, ◌||◌, ◌∷◌,
}
use netsee.Prelude.Int.{ltb_ℤ, pos, ℤ}
use netsee.Prelude.Text.{Bytes, bytes_beq, is_empty, utf8}
use netsee.Probe.Server.{Config, Env, Server, blank_obs, record_obs}
use netsee.Proto.SessionId.{valid_session_id}
use netsee.Proto.Store.Order.Replies.{replies}
use netsee.Proto.Types.{Obs, obs_udp, udp_echo, udp_nat, udp_pmtu, udp_reach}

-- The two sockets that datagrams arrive at.
pub data Socket : Type 0 where
  udp_socket : Socket
  nat_socket : Socket

pub record UdpAddr : Type 0 where
  pub ip : Bytes
  pub port : ℕ

pub record Reply : Type 0 where
  pub from : Socket
  pub payload : Bytes
  pub to : UdpAddr

-- `json.Unmarshal` into the fields `session` and `kind`; none where it fails.
abbrev pub Decode : Type 0
Decode = Bytes → Option (Bytes × Bytes)

unfoldable pub parse_udp_payload : Decode → Bytes → Option (Bytes × Bytes)
parse_udp_payload decode payload = elim (decode payload) [
  | none ↦ none
  | some (session, kind) ↦ if valid_session_id session then some (session, kind) else none
]

-- `LocalAddr().(*net.UDPAddr).Port`
pub local_port : Server → Socket → ℕ
local_port s udp_socket = s.info.udp_port
local_port s nat_socket = s.info.nat_port

-- The limit on the payload's length.
unfoldable pub max_payload : Config → Bytes → ℤ
max_payload cfg kind = if bytes_beq kind udp_pmtu then cfg.max_udp_pmtu else cfg.max_udp

-- The switch on the kind: the socket that replies, and `reply_from`; none drops the datagram.
unfoldable pub choose_replier : Server → Socket → Bytes → Option (Socket × Bytes)
choose_replier s ln kind =
    if bytes_beq kind udp_echo || bytes_beq kind udp_reach || bytes_beq kind udp_pmtu
    then some (ln, utf8 "same")
    else if bytes_beq kind udp_nat
    then some (
      nat_socket,
      if not (is_empty s.cfg.second_ip)
          then utf8 "other-ip"
          else if not (local_port s nat_socket == local_port s ln)
          then utf8 "other-port"
          else utf8 "same",
    )
    else none

abbrev pub recorded_obs : Env → Bytes → UdpAddr → ℕ → Bytes → Bytes → ℕ → ℕ → Obs
recorded_obs e session src ttl kind reply_from payload_len dst_port =
    record (blank_obs e obs_udp session dst_port) {
      src_ip = src.ip;
      src_port = src.port;
      ttl = ttl;
      udp = some (record { kind = kind; reply_from = reply_from; payload_len = payload_len });
    }

unfoldable pub record_udp : Env → Bytes → UdpAddr → ℕ → Bytes → Bytes → ℕ → ℕ → Server → Server
record_udp e session src ttl kind reply_from payload_len dst_port s =
    record_obs e session (recorded_obs e session src ttl kind reply_from payload_len dst_port) s

-- Behind the switch: record, then write the payload back.
answer :
    Env
    → Socket
    → Bytes
    → UdpAddr
    → ℕ
    → Server
    → Bytes × Bytes
    → Option (Socket × Bytes)
    → Server × Option Reply
answer e ln payload src ttl s (session, kind) none = (s, none)
answer e ln payload src ttl s (session, kind) (some (replier, reply_from)) = (
  record_udp e session src ttl kind reply_from (length payload) (local_port s ln) s,
  some (record { from = replier; payload = payload; to = src }),
)

-- Behind the parse; an oversized payload is dropped.
handle_parsed :
    Env → Socket → Bytes → UdpAddr → ℕ → Server → Option (Bytes × Bytes) → Server × Option Reply
unfolding answer
handle_parsed e ln payload src ttl s none = (s, none)
handle_parsed e ln payload src ttl s (some (session, kind)) =
    if ltb_ℤ (max_payload s.cfg kind) (pos (length payload))
    then (s, none)
    else answer e ln payload src ttl s (session, kind) (choose_replier s ln kind)

pub handle_udp_arrival :
    Decode → Env → Socket → Bytes → UdpAddr → ℕ → Server → Server × Option Reply
unfolding handle_parsed
handle_udp_arrival decode e ln payload src ttl s =
    handle_parsed e ln payload src ttl s (parse_udp_payload decode payload)

-- What one `read` of the loop gives: an error, before or after the server was shut down, or a
-- datagram with its source and its TTL.
pub data UdpRead : Type 0 where
  read_failed : Bool → UdpRead
  datagram : Env → Bytes → UdpAddr → ℕ → UdpRead

-- `serveUDPLoop` on the reads to come, with the replies in order.
pub serve_udp_loop : Decode → Socket → List UdpRead → Server → Server × List Reply
serve_udp_loop decode ln [] s = (s, [])
serve_udp_loop decode ln (read_failed closed ∷ reads) s =
    let rest = serve_udp_loop decode ln reads s in if closed then (s, []) else rest
serve_udp_loop decode ln (datagram e [] src ttl ∷ reads) s = serve_udp_loop decode ln reads s
serve_udp_loop decode ln (datagram e (b ∷ bs) src ttl ∷ reads) s =
    let (s', reply) = handle_udp_arrival decode e ln (b ∷ bs) src ttl s in
    let (s'', replies) = serve_udp_loop decode ln reads s' in
    (s'', elim reply [ none ↦ replies | some r ↦ r ∷ replies ])
