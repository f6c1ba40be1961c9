-- ===== src/Probe/Udp/Loop.antt =====
-- What the datagram loops change, and what they send.
use netsee.Prelude.{
  List, Option, [], ap, arith, false, length, none, refl, some, true, ℕ, ◌+◌, ◌∷◌, ◌≤◌,
}
use netsee.Prelude.Text.{Bytes}
use netsee.Probe.Server.{Env, Server, blank_obs}
use netsee.Probe.Server.Registry.{Follows, Follows-refl, Follows-trans, record_obs-Follows}
use netsee.Probe.Udp.{
  Decode, Reply, Socket, UdpAddr, UdpRead, datagram, handle_udp_arrival, read_failed,
  serve_udp_loop,
}
use netsee.Probe.Udp.Replies.{AnsweredOrDropped, handle_udp_arrival-AnsweredOrDropped}
use netsee.Proto.Store.Order.Replies.{replies}

pub handle_udp_arrival-Follows :
    (decode : Decode) (e : Env) (ln : Socket) (payload : Bytes) (src : UdpAddr) (ttl : ℕ)
    (s : Server)
    → Follows s (handle_udp_arrival decode e ln payload src ttl s).0
unfolding blank_obs
handle_udp_arrival-Follows decode e ln payload src ttl s =
    followed (handle_udp_arrival decode e ln payload src ttl s)
      (handle_udp_arrival-AnsweredOrDropped decode e ln payload src ttl s)
  where
    followed :
        (r : Server × Option Reply)
        → AnsweredOrDropped decode e ln payload src ttl s r
        → Follows s r.0
    followed (s', none) same = rw same.0 (Follows-refl s)
    followed (s', some r) a = rw a.recorded (record_obs-Follows e a.session _ s refl)

-- Bytes in all datagrams that the loop reads, and in all replies.
pub received_bytes : List UdpRead → ℕ
received_bytes [] = 0
received_bytes (read_failed closed ∷ reads) = received_bytes reads
received_bytes (datagram e payload src ttl ∷ reads) = length payload + received_bytes reads

pub sent_bytes : List Reply → ℕ
sent_bytes [] = 0
sent_bytes (r ∷ replies) = length r.payload + sent_bytes replies

-- What one arrival sends is no longer than what arrived.
reply_le :
    (decode : Decode) (e : Env) (ln : Socket) (payload : Bytes) (src : UdpAddr) (ttl : ℕ)
    (s : Server) (replies : List Reply)
    → sent_bytes (elim (handle_udp_arrival decode e ln payload src ttl s).1 [
      | none ↦ replies
      | some r ↦ r ∷ replies
    ])
      ≤ length payload + sent_bytes replies
reply_le decode e ln payload src ttl s replies =
    bound (handle_udp_arrival decode e ln payload src ttl s)
      (handle_udp_arrival-AnsweredOrDropped decode e ln payload src ttl s)
  where
    bound :
        (r : Server × Option Reply)
        → AnsweredOrDropped decode e ln payload src ttl s r
        → sent_bytes (elim r.1 [ none ↦ replies | some x ↦ x ∷ replies ])
          ≤ length payload + sent_bytes replies
    bound (s', none) same = omega arith
    bound (s', some r) a = unfold sent_bytes in omega (arith, ap length a.echoed)

-- For every sequence of reads the loop changes the registry alone, by steps of the registry, and
-- the replies hold no more bytes than the datagrams: the probe does not amplify traffic.
pub serve_udp_loop_sound :
    (decode : Decode) (ln : Socket) (reads : List UdpRead) (s : Server)
    → Follows s (serve_udp_loop decode ln reads s).0
      × (sent_bytes (serve_udp_loop decode ln reads s).1 ≤ received_bytes reads)
unfolding serve_udp_loop received_bytes
serve_udp_loop_sound decode ln [] s = (Follows-refl s, unfold sent_bytes in omega arith)
serve_udp_loop_sound decode ln (read_failed true ∷ reads) s =
    (Follows-refl s, unfold sent_bytes in omega arith)
serve_udp_loop_sound decode ln (read_failed false ∷ reads) s =
    serve_udp_loop_sound decode ln reads s
serve_udp_loop_sound decode ln (datagram e [] src ttl ∷ reads) s =
    let (follows, le) = serve_udp_loop_sound decode ln reads s in (follows, omega arith)
serve_udp_loop_sound decode ln (datagram e (b ∷ bs) src ttl ∷ reads) s =
    let s' = (handle_udp_arrival decode e ln (b ∷ bs) src ttl s).0 in
    let (follows, le) = serve_udp_loop_sound decode ln reads s' in
    (
      Follows-trans (handle_udp_arrival-Follows decode e ln (b ∷ bs) src ttl s) follows,
      omega (arith, reply_le decode e ln (b ∷ bs) src ttl s (serve_udp_loop decode ln reads s').1),
    )
