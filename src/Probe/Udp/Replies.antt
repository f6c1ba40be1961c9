-- ===== src/Probe/Udp/Replies.antt =====
-- When a datagram is answered, by whom, and what is recorded of it.
use mathlib.Core.Path.{subst}
use netsee.Prelude.{
  Bool-cases, Option, arith, false, inl, inr, length, none, refl, some, true, ℕ, ◌≡◌,
}
use netsee.Prelude.Int.{ltb_ℤ, pos}
use netsee.Prelude.Text.{Bytes, bytes_eq}
use netsee.Probe.Server.{Env, Server, blank_obs, record_obs}
use netsee.Probe.Udp.{
  Decode, Reply, Socket, UdpAddr, answer, choose_replier, handle_parsed, handle_udp_arrival,
  local_port, max_payload, parse_udp_payload, record_udp,
}
use netsee.Probe.Udp.Limits.{
  Accepts, IsArrivalPort, IsKnown, IsReplier, IsWithin, choose_replier-IsReplier,
  choose_replier-none, local_port-IsArrivalPort, max_payload-IsWithin,
}
use netsee.Proto.SessionId.{valid_session_id}
use netsee.Proto.Types.{obs_udp}

-- What an answered datagram has passed, who replies and what is recorded of it.
pub record IsAnswered (decode : Decode) (e : Env) (ln : Socket) (payload : Bytes) (src : UdpAddr)
    (ttl : ℕ) (s s' : Server) (r : Reply) : Type 0 where
  pub session : Bytes
  pub kind : Bytes
  pub reply_from : Bytes
  pub dst_port : ℕ
  pub accepted : Accepts decode s payload session kind
  pub replier : IsReplier s ln kind r.from reply_from
  pub arrived_at : IsArrivalPort s ln dst_port
  pub echoed : r.payload ≡ payload
  pub to_source : r.to ≡ src
  pub recorded :
      s'
      ≡ record_obs e session
          (record (blank_obs e obs_udp session dst_port) {
            src_ip = src.ip;
            src_port = src.port;
            ttl = ttl;
            udp =
                some
                  (record { kind = kind; reply_from = reply_from; payload_len = length payload });
          })
          s

abbrev pub AnsweredOrDropped :
    Decode → Env → Socket → Bytes → UdpAddr → ℕ → Server → Server × Option Reply → Type 0
AnsweredOrDropped decode e ln payload src ttl s (s', none) =
    (s' ≡ s) × ((session kind : Bytes) → ¬ Accepts decode s payload session kind)
AnsweredOrDropped decode e ln payload src ttl s (s', some r) =
    IsAnswered decode e ln payload src ttl s s' r

module _ (decode : Decode) (e : Env) (ln : Socket) (payload : Bytes) (src : UdpAddr) (ttl : ℕ)
    (s : Server) where
  parse_udp_payload-some :
      {session kind : Bytes}
      → parse_udp_payload decode payload ≡ some (session, kind)
      → (decode payload ≡ some (session, kind)) × (valid_session_id session ≡ true)
  unfolding parse_udp_payload
  parse_udp_payload-some h = ground arith

  Accepts-parse :
      (session kind : Bytes)
      → Accepts decode s payload session kind
      → parse_udp_payload decode payload ≡ some (session, kind)
  unfolding parse_udp_payload
  Accepts-parse session kind a =
      let decoded = a.decoded in let valid = a.valid in ground (arith, decoded, valid)

  -- Whatever is accepted is what was parsed.
  Accepts-same :
      {session kind session' kind' : Bytes}
      → parse_udp_payload decode payload ≡ some (session, kind)
      → Accepts decode s payload session' kind'
      → kind' ≡ kind
  Accepts-same {session} {kind} {session'} {kind'} h a =
      let parsed = Accepts-parse session' kind' a in cc

  answer-AnsweredOrDropped :
      (session kind : Bytes) (choice : Option (Socket × Bytes))
      → parse_udp_payload decode payload ≡ some (session, kind)
      → IsWithin s.cfg kind (length payload)
      → choose_replier s ln kind ≡ choice
      → AnsweredOrDropped decode e ln payload src ttl s
          (answer e ln payload src ttl s (session, kind) choice)
  unfolding answer record_udp
  answer-AnsweredOrDropped session kind none p w c = (
    refl,
    λ session' kind' a. choose_replier-none s ln kind c (subst IsKnown (Accepts-same p a) a.known),
  )
  answer-AnsweredOrDropped session kind (some (replier, reply_from)) p w c =
      let (decoded, valid) = parse_udp_payload-some p in
      let (by, known) = choose_replier-IsReplier s ln kind c in
      record {
        session = session;
        kind = kind;
        reply_from = reply_from;
        dst_port = local_port s ln;
        accepted = record { decoded = decoded; valid = valid; within = w; known = known };
        replier = by;
        arrived_at = local_port-IsArrivalPort s ln;
        echoed = refl;
        to_source = refl;
        recorded = refl;
      }

  handle_parsed-AnsweredOrDropped :
      (parsed : Option (Bytes × Bytes))
      → parse_udp_payload decode payload ≡ parsed
      → AnsweredOrDropped decode e ln payload src ttl s
          (handle_parsed e ln payload src ttl s parsed)
  unfolding handle_parsed
  handle_parsed-AnsweredOrDropped none h =
      (refl, λ session kind a. let parsed = Accepts-parse session kind a in cc)
  handle_parsed-AnsweredOrDropped (some (session, kind)) h =
      let fits = max_payload-IsWithin s.cfg kind (length payload) in
      elim (Bool-cases (ltb_ℤ (max_payload s.cfg kind) (pos (length payload)))) [
        | inl over ↦ rw over (
          refl,
          λ session' kind' a.
              let within : IsWithin s.cfg kind (length payload) =
                subst (λ k. IsWithin s.cfg k (length payload)) (Accepts-same h a) a.within in
              let small = fits.1 within in cc,
        )
        | inr within ↦ rw within (
            answer-AnsweredOrDropped session kind (choose_replier s ln kind) h (fits.0 within) refl)
      ]

  -- A datagram is answered exactly if it decodes, its session is valid, its kind is one of the four
  -- and its length is at most `MaxUDPPMTU` for `pmtu` and at most `MaxUDP` for the others. The
  -- answer is its own payload, to its source: by the NAT socket for `nat`, by the socket that it
  -- arrived at for the others; and one observation is recorded, with source, TTL, kind, length,
  -- port of arrival and where the reply comes from. Any other datagram leaves no trace.
  pub handle_udp_arrival-AnsweredOrDropped :
      AnsweredOrDropped decode e ln payload src ttl s
        (handle_udp_arrival decode e ln payload src ttl s)
  unfolding handle_udp_arrival
  handle_udp_arrival-AnsweredOrDropped =
      handle_parsed-AnsweredOrDropped (parse_udp_payload decode payload) refl

-- A datagram that passes is recorded, whatever becomes of the reply.
pub handle_udp_arrival_passes :
    (decode : Decode) (e : Env) (ln : Socket) (payload : Bytes) (src : UdpAddr) (ttl : ℕ)
    (s : Server) (session kind reply_from : Bytes) (replier : Socket)
    → parse_udp_payload decode payload ≡ some (session, kind)
    → ltb_ℤ (max_payload s.cfg kind) (pos (length payload)) ≡ false
    → choose_replier s ln kind ≡ some (replier, reply_from)
    → (handle_udp_arrival decode e ln payload src ttl s).0
      ≡ record_udp e session src ttl kind reply_from (length payload) (local_port s ln) s
unfolding handle_udp_arrival handle_parsed answer
handle_udp_arrival_passes decode e ln payload src ttl s session kind reply_from replier p f c =
    rw (p, handle_parsed) (rw f (rw (c, answer) refl))
