-- ===== src/Client/Measure/Extra.antt =====
-- The reach tests of the extra ports, which come after the pull.
use netsee.Client.Measure.{
  before_pull, contains_port, is_none, measure, obs_or_none, outcome_of, reach_of,
}
use netsee.Client.Nat.{run_nat}
use netsee.Client.Probed.{saw_port, with_source}
use netsee.Client.Probed.Views.{SeenAt, build_probe_result-extra, port_check-unseen, saw_port_iff}
use netsee.Client.Session.{
  ProbeSession, Pulled, http_echo, http_status, pull, pull_failed, pull_stuck, pulled_obs,
  tls_sniff,
}
use netsee.Client.Session.Pulls.{pull-Replied}
use netsee.Client.Types.{ProbeInfo, succeeded}
use netsee.Client.World.{
  Contact, Libraries, Meets, RunConfig, did_echo, did_nat, did_pmtu, did_pull, did_reach, did_sniff,
}
use netsee.Prelude.{
  Bool-cases, In, List, [], arith, false, get_elem?, inl, inr, not, refl, some, suc, true, zero, ℕ,
  ◌∷◌, ◌≡◌, ◌≢◌, ◌⊎◌,
}
use netsee.Prelude.Hosts.{net_join_host_port}
use netsee.Prelude.Text.{Bytes, utf8}
use netsee.Proto.Types.{Obs}

contains_port-at :
    (ports : List ℕ) (i p : ℕ) → get_elem? ports i ≡ some p → contains_port p ports ≡ true
unfolding contains_port
contains_port-at [] i p h = cc
contains_port-at (q ∷ ports) zero p h = ground arith
contains_port-at (q ∷ ports) (suc i) p h = ground (arith, contains_port-at ports i p)

-- The ports of the probe that a step reaches.
abbrev pub Touches : ProbeInfo → Contact → ℕ → Type 0
Touches info did_echo p = p ≡ info.http_port
Touches info did_sniff p = p ≡ info.tls_port
Touches info did_nat p = (p ≡ info.udp_port) ⊎ (p ≡ info.nat_port)
Touches info did_pmtu p = p ≡ info.udp_port
Touches info did_pull p = p ≡ info.http_port
Touches info (did_reach q) p = p ≡ q

-- What the probe answers about the session was observed at ports that steps before have reached.
abbrev pub AnswersPast : Libraries → Meets → ProbeInfo → Type 0
AnswersPast lib w info =
    (past : List Contact) (n p : ℕ) (body : Bytes) (obs : List Obs)
    → (w.polls past n).reply ≡ http_status 200 body
    → lib.decode_obs body ≡ succeeded obs
    → SeenAt obs p
    → (step : Contact) × In step past × Touches info step p

-- None of the four ports that the other steps reach.
abbrev pub IsOwnPort : ProbeInfo → ℕ → Type 0
IsOwnPort info p =
    (p ≢ info.http_port) × (p ≢ info.tls_port) × (p ≢ info.udp_port) × (p ≢ info.nat_port)

untouched_before :
    (info : ProbeInfo) (p : ℕ) (step : Contact)
    → IsOwnPort info p
    → In step before_pull
    → Touches info step p
    → ⊥
untouched_before info p step (http, tls, udp, nat) m t = elim m [
  | inl e ↦ http (rw e at t)
  | inr (inl e) ↦ tls (rw e at t)
  | inr (inr (inl e)) ↦
      let at_nat : (p ≡ info.udp_port) ⊎ (p ≡ info.nat_port) = rw e at t in
      elim at_nat [ inl u ↦ udp u | inr v ↦ nat v ]
  | inr (inr (inr (inl e))) ↦ udp (rw e at t)
  | inr (inr (inr (inr none_left))) ↦ elim none_left [ ]
]

-- Whatever `Pull` comes to.
pull-unseen :
    (lib : Libraries) (w : Meets) (id : Bytes) (info : ProbeInfo) (p : ℕ)
    → AnswersPast lib w info
    → IsOwnPort info p
    → (got : Pulled) → pull lib.decode_obs id w.pull_start (w.polls before_pull) ≡ got
    → saw_port (with_source (obs_or_none got)) p ≡ false
unfolding obs_or_none saw_port with_source
pull-unseen lib w id info p past own (pull_failed e) h = refl
pull-unseen lib w id info p past own pull_stuck h = refl
pull-unseen lib w id info p past own (pulled_obs obs) h =
    elim (Bool-cases (saw_port (with_source obs) p)) [
      | inr unseen ↦ unseen
      | inl seen ↦
          let (n, body, reply, decoded) =
            pull-Replied lib.decode_obs id w.pull_start (w.polls before_pull) obs h in
          let (step, m, t) =
            past before_pull n p body obs reply decoded ((saw_port_iff obs p).0 seen) in
          absurd (untouched_before info p step own m t)
    ]

-- If what the probe answers about a session was observed at ports that steps before have reached,
-- then each extra port that is none of the four main ones is reported as not seen by the probe, and
-- as inconsistent where the client does get through to it: `Run` connects to the extra ports behind
-- `Pull`, whatever the pull gives.
pub measure-extra_unseen :
    (lib : Libraries) (c : RunConfig) (w : Meets) (sess : ProbeSession) (i p : ℕ)
    → AnswersPast lib w sess.info
    → get_elem? sess.info.extra_ports i ≡ some p
    → IsOwnPort sess.info p
    → In
        (record {
          port = p;
          proto = utf8 "tcp";
          connected = is_none (reach_of w sess.info p);
          probe_saw = false;
          consistent = not (is_none (reach_of w sess.info p));
        })
        (measure lib c w sess).probe.connectivity
unfolding measure outcome_of
measure-extra_unseen lib c w sess i p past extra own =
    let nat = run_nat net_join_host_port sess.info w.local_ip w.attempts in
    let got = pull lib.decode_obs sess.id w.pull_start (w.polls before_pull) in
    let connected = is_none (reach_of w sess.info p) in
    let outcomes =
      outcome_of sess.info (http_echo w.echo_reply) (tls_sniff w.tls_dial w.handshake) nat
        (reach_of w sess.info) in
    let e : outcomes p ≡ some connected =
      rw (contains_port-at sess.info.extra_ports i p extra) refl in
    let check =
      build_probe_result-extra sess.probe sess.info (obs_or_none got) outcomes i p connected extra
        e in
    let unseen = pull-unseen lib w sess.id sess.info p past own got refl in
    rw (port_check-unseen (with_source (obs_or_none got)) p (utf8 "tcp") connected unseen) at check
