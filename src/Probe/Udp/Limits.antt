-- ===== src/Probe/Udp/Limits.antt =====
-- Which datagrams are answered, and which socket answers: `parseUDPPayload` and the tests of
-- `handleUDPArrival`.
use mathlib.Core.Path.{subst}
use netsee.Prelude.{
  Bool-cases, arith, false, inl, inr, length, none, refl, some, true, ℕ, ◌==◌, ◌||◌, ◌↔◌, ◌≡◌, ◌≢◌,
  ◌⊎◌,
}
use netsee.Prelude.Int.{leb_ℤ, ltb_ℤ, pos}
use netsee.Prelude.Text.{Bytes, bytes_beq, bytes_beq_iff, bytes_ne, is_empty, utf8}
use netsee.Probe.Server.{Config, Server}
use netsee.Probe.Udp.{
  Decode, Socket, choose_replier, local_port, max_payload, nat_socket, udp_socket,
}
use netsee.Proto.SessionId.{valid_session_id}
use netsee.Proto.Types.{udp_echo, udp_nat, udp_pmtu, udp_reach}

-- Two limits: one for `pmtu` and one for the other kinds.
abbrev pub IsWithin : Config → Bytes → ℕ → Type 0
IsWithin cfg kind size =
    ((kind ≡ udp_pmtu) × (leb_ℤ (pos size) cfg.max_udp_pmtu ≡ true))
    ⊎ ((kind ≢ udp_pmtu) × (leb_ℤ (pos size) cfg.max_udp ≡ true))

-- The kinds that come back to where they arrived.
abbrev pub IsDirect : Bytes → Type 0
IsDirect kind = (kind ≡ udp_echo) ⊎ (kind ≡ udp_reach) ⊎ (kind ≡ udp_pmtu)

abbrev pub IsKnown : Bytes → Type 0
IsKnown kind = IsDirect kind ⊎ (kind ≡ udp_nat)

-- The payload is answered, with this session and kind.
pub record Accepts (decode : Decode) (s : Server) (payload session kind : Bytes) : Type 0 where
  pub decoded : decode payload ≡ some (session, kind)
  pub valid : valid_session_id session ≡ true
  pub within : IsWithin s.cfg kind (length payload)
  pub known : IsKnown kind

abbrev pub IsArrivalPort : Server → Socket → ℕ → Type 0
IsArrivalPort s ln port =
    ((ln ≡ udp_socket) × (port ≡ s.info.udp_port)) ⊎ ((ln ≡ nat_socket) × (port ≡ s.info.nat_port))

-- Who replies to a kind at a socket, and what is told of it.
pub data IsReplier (s : Server) (ln : Socket) (kind : Bytes) (replier : Socket) (reply_from : Bytes)
    : Type 0 where
  comes_back :
      IsDirect kind
      → replier ≡ ln
      → reply_from ≡ utf8 "same"
      → IsReplier s ln kind replier reply_from
  by_second_ip :
      kind ≡ udp_nat
      → replier ≡ nat_socket
      → is_empty s.cfg.second_ip ≡ false
      → reply_from ≡ utf8 "other-ip"
      → IsReplier s ln kind replier reply_from
  by_other_port :
      kind ≡ udp_nat
      → replier ≡ nat_socket
      → is_empty s.cfg.second_ip ≡ true
      → ¬ IsArrivalPort s ln s.info.nat_port
      → reply_from ≡ utf8 "other-port"
      → IsReplier s ln kind replier reply_from
  by_same_port :
      kind ≡ udp_nat
      → replier ≡ nat_socket
      → is_empty s.cfg.second_ip ≡ true
      → IsArrivalPort s ln s.info.nat_port
      → reply_from ≡ utf8 "same"
      → IsReplier s ln kind replier reply_from

pub local_port-IsArrivalPort : (s : Server) (ln : Socket) → IsArrivalPort s ln (local_port s ln)
unfolding local_port
local_port-IsArrivalPort s udp_socket = inl (refl, refl)
local_port-IsArrivalPort s nat_socket = inr (refl, refl)

-- There is one such port.
IsArrivalPort-eq :
    (s : Server) (ln : Socket) (port : ℕ) → IsArrivalPort s ln port → local_port s ln ≡ port
unfolding local_port
IsArrivalPort-eq s udp_socket port (inl (e, p)) = ground (arith, p)
IsArrivalPort-eq s udp_socket port (inr (e, p)) = cc
IsArrivalPort-eq s nat_socket port (inl (e, p)) = cc
IsArrivalPort-eq s nat_socket port (inr (e, p)) = ground (arith, p)

pub max_payload-IsWithin :
    (cfg : Config) (kind : Bytes) (size : ℕ)
    → (ltb_ℤ (max_payload cfg kind) (pos size) ≡ false) ↔ IsWithin cfg kind size
unfolding max_payload
max_payload-IsWithin cfg kind size = elim (Bool-cases (bytes_beq kind udp_pmtu)) [
  | inl same ↦
      let e = (bytes_beq_iff kind udp_pmtu).0 same in
      (
        (λ h. inl (e, ground (arith, h))),
        (λ h. elim h [ inl (_, fits) ↦ ground (arith, fits) | inr (other, _) ↦ absurd (other e) ]),
      )
  | inr differ ↦
      let n = bytes_ne kind udp_pmtu differ in
      (
        (λ h. inr (n, ground (arith, h))),
        (λ h. elim h [ inl (e, _) ↦ absurd (n e) | inr (_, fits) ↦ ground (arith, fits) ]),
      )
]

module _ (s : Server) (ln : Socket) (kind : Bytes) where
  is_direct :
      (bytes_beq kind udp_echo || bytes_beq kind udp_reach || bytes_beq kind udp_pmtu) ≡ true
      → IsDirect kind
  is_direct h = ground (
    arith,
    h,
    bytes_beq_iff kind udp_echo,
    bytes_beq_iff kind udp_reach,
    bytes_beq_iff kind udp_pmtu,
  )

  at_nat : (local_port s nat_socket == local_port s ln) ≡ true → IsArrivalPort s ln s.info.nat_port
  unfolding local_port
  at_nat e =
      let port : local_port s ln ≡ s.info.nat_port = ground arith in
      subst (IsArrivalPort s ln) port (local_port-IsArrivalPort s ln)

  not_at_nat :
      (local_port s nat_socket == local_port s ln) ≡ false → ¬ IsArrivalPort s ln s.info.nat_port
  unfolding local_port
  not_at_nat e a = let port = IsArrivalPort-eq s ln _ a in ground (arith, port)

  pub choose_replier-IsReplier :
      {replier : Socket} {reply_from : Bytes}
      → choose_replier s ln kind ≡ some (replier, reply_from)
      → IsReplier s ln kind replier reply_from × IsKnown kind
  unfolding choose_replier
  choose_replier-IsReplier {replier} {reply_from} h =
      elim (Bool-cases
        (bytes_beq kind udp_echo || bytes_beq kind udp_reach || bytes_beq kind udp_pmtu)) [
          | inl hit ↦
              let d = is_direct hit in (comes_back d (ground (arith, h)) (ground (arith, h)), inl d)
          | inr miss ↦
              let nat : kind ≡ udp_nat = ground (arith, h, bytes_beq_iff kind udp_nat) in
              let by : replier ≡ nat_socket = ground (arith, h) in
              (
                elim (Bool-cases (is_empty s.cfg.second_ip)) [
                  | inr second ↦ by_second_ip nat by second (ground (arith, h))
                  | inl single ↦ elim (Bool-cases (local_port s nat_socket == local_port s ln)) [
                    | inl equal ↦ by_same_port nat by single (at_nat equal) (ground (arith, h))
                    | inr differ ↦
                        by_other_port nat by single (not_at_nat differ) (ground (arith, h))
                  ]
                ],
                inr nat,
              )
        ]

  pub choose_replier-none : choose_replier s ln kind ≡ none → ¬ IsKnown kind
  unfolding choose_replier
  choose_replier-none h known =
      let echo = bytes_beq_iff kind udp_echo in
      let reach = bytes_beq_iff kind udp_reach in
      let pmtu = bytes_beq_iff kind udp_pmtu in
      let nat = bytes_beq_iff kind udp_nat in
      elim known [
        | inl (inl e) ↦ ground (arith, h, echo.1 e)
        | inl (inr (inl e)) ↦ ground (arith, h, reach.1 e)
        | inl (inr (inr e)) ↦ ground (arith, h, pmtu.1 e)
        | inr e ↦ ground (arith, h, nat.1 e)
      ]
