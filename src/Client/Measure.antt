-- ===== src/Client/Measure.antt =====
-- internal/client/run.go: the steps of one measurement.
pub mod Notes
pub mod Extra
pub mod Samples
mod Tests
use mathlib.Core.Option
use netsee.Client.Attribution.{
  Attribution, Measured, ParseAddr, detect_fake_ip_resolvers, detect_tun, finalize_attribution,
}
use netsee.Client.Dns.{DnsResult, run_dns}
use netsee.Client.Dns.Query.{query_doh}
use netsee.Client.Local.{collect_local}
use netsee.Client.Nat.{NatResult, run_nat}
use netsee.Client.Pmtu.{PmtuResult, PmtuRun, measured, pmtu_failed, pmtu_stuck, run_pmtu}
use netsee.Client.Probed.{build_probe_result, primary_exit_ip}
use netsee.Client.Reputation.Requests.{look_up}
use netsee.Client.Result.{Measurement, Note, ProbeResult}
use netsee.Client.Session.{
  ProbeSession, Pulled, http_echo, pull, pull_failed, pull_stuck, pulled_obs, tcp_reach, tls_sniff,
}
use netsee.Client.Types.{Fallible, LocalInfo, ProbeInfo, ReputationResult, failed_with, succeeded}
use netsee.Client.World.{
  Contact, Libraries, Meets, RunConfig, did_echo, did_nat, did_pmtu, did_pull, did_reach, did_sniff,
}
use netsee.Prelude.{
  Bool, List, Option, [], false, flatten, if◌then◌else◌, none, not, some, true, ℕ, ◌++◌, ◌==◌, ◌||◌,
  ◌∷◌,
}
use netsee.Prelude.Hosts.{net_join_host_port}
use netsee.Prelude.Text.{Bytes, is_empty, utf8}
use netsee.Proto.Types.{Obs}

pub warn : Bytes → Bytes → Note
warn what e = record { level = utf8 "warn"; text = what ++ (utf8 ": " ++ e) }

-- The note of a step: none where there is no error.
step_note : Bytes → Option Bytes → List Note
unfolding warn
step_note what none = []
step_note what (some e) = warn what e ∷ []

abbrev pub context_note : Note
context_note = record {
  level = utf8 "info";
  text = utf8 "沿途节点有能力看到以下信息；是否真的在看取决于具体服务商。本工具测的是暴露面，不是实际被监视。";
}

-- The error of a step that gave nothing.
error_of : {A : Type 0} → Option A → Bytes → Option Bytes
error_of none e = some e
error_of (some a) e = none

pub fallible_error : {A : Type 0} → Fallible A → Option Bytes
fallible_error (failed_with e) = some e
fallible_error (succeeded a) = none

abbrev no_local : LocalInfo
no_local = record {
  hostname = [];
  interfaces = [];
  default_route_v4 = [];
  default_gw_v4 = [];
  default_route_v6 = [];
  default_mtu = 0;
  resolv_conf = none;
  route_source = [];
}

local_or_none : Fallible LocalInfo → LocalInfo
local_or_none (succeeded l) = l
local_or_none (failed_with e) = no_local

abbrev no_attribution : Attribution
no_attribution = record {
  tun = false;
  tun_interface = [];
  fake_ip = false;
  fake_ip_note = [];
  proxy_stack = none;
  udp = [];
  note = [];
}

-- The attribution after the local step.
pub first_attribution : ParseAddr → Fallible LocalInfo → Attribution
first_attribution parse_addr (failed_with e) = no_attribution
first_attribution parse_addr (succeeded l) =
    let (tun, interface) = detect_tun l.default_route_v4 l.default_route_v6 in
    let fake =
      detect_fake_ip_resolvers parse_addr (Option.map (λ rc. rc.nameservers) l.resolv_conf) in
    record no_attribution {
      tun = tun;
      tun_interface = interface;
      fake_ip = fake;
      fake_ip_note = if fake then utf8 "系统解析器指向 fake-ip 段（198.18.0.0/15），DNS 被代理接管" else [];
    }

-- `RunPMTU`, none for an error.
pmtu_of : PmtuRun → Option PmtuResult
pmtu_of (measured r) = some r
pmtu_of pmtu_failed = none
pmtu_of pmtu_stuck = none

obs_or_none : Pulled → List Obs
obs_or_none (pulled_obs obs) = obs
obs_or_none (pull_failed e) = []
obs_or_none pull_stuck = []

pub pull_error : Pulled → Option Bytes
pull_error (pulled_obs obs) = none
pull_error (pull_failed e) = some e
pull_error pull_stuck = none

pub is_none : {A : Type 0} → Option A → Bool
is_none none = true
is_none (some a) = false

contains_port : ℕ → List ℕ → Bool
contains_port p [] = false
contains_port p (q ∷ ports) = q == p || contains_port p ports

-- The map `outcomes`: a later entry of a port replaces an earlier one, and the extra ports come last.
-- The arguments are the errors of the echo, of the sniff and of the reach tests, and the NAT result.
pub outcome_of :
    ProbeInfo
    → Option Bytes
    → Option Bytes
    → Option NatResult
    → (ℕ → Option Bytes)
    → ℕ
    → Option Bool
unfolding is_none contains_port
outcome_of info http_error tls_error nat reach p =
    if contains_port p info.extra_ports
    then some (is_none (reach p))
    else if info.nat_port == p
    then some (elim nat [ none ↦ false | some n ↦ n.nat_reply_received ])
    else if info.udp_port == p
    then some (elim nat [ none ↦ false | some n ↦ n.echo_received ])
    else if info.tls_port == p
    then some (is_none tls_error)
    else if info.http_port == p
    then some (is_none http_error)
    else none

-- What `finalizeAttribution` reads of the result.
measured_of : Option DnsResult → Option NatResult → ProbeResult → Measured
measured_of dns nat probe = record {
  dns_fake_ip = Option.map (λ d. d.fake_ip_detected) dns;
  observations = probe.observations;
  connectivity = probe.connectivity;
  nat_echo = Option.map (λ n. n.echo_received) nat;
}

-- The reputation is asked for only if there is an exit address.
reputation_of : Libraries → RunConfig → Meets → Bytes → Option ReputationResult
reputation_of lib c w ip =
    if not (is_empty ip)
    then some (
        look_up lib.decode_api lib.decode_ipinfo w.api_get w.ipinfo_get ip c.ipinfo_token
          c.ip_api_base)
    else none

-- The steps before `Pull`, and those before the extra port `p` is tried, in order.
abbrev pub before_pull : List Contact
before_pull = did_echo ∷ did_sniff ∷ did_nat ∷ did_pmtu ∷ []

reached_before : ℕ → List ℕ → List Contact
reached_before p [] = []
reached_before p (q ∷ ports) =
    let rest = reached_before p ports in if q == p then [] else did_reach q ∷ rest

before_reach : ProbeInfo → ℕ → List Contact
unfolding reached_before
before_reach info p = before_pull ++ (did_pull ∷ reached_before p info.extra_ports)

-- `TCPReach` of one of them.
pub reach_of : Meets → ProbeInfo → ℕ → Option Bytes
unfolding before_reach
reach_of w info p =
    tcp_reach (w.reach_dial (before_reach info p) p) (w.reach_write (before_reach info p) p)

-- The steps of `Run` behind the session's discovery, up to the direct comparison.
pub measure : Libraries → RunConfig → Meets → ProbeSession → Measurement
unfolding first_attribution step_note outcome_of measured_of reputation_of local_or_none error_of
    fallible_error pmtu_of obs_or_none pull_error
measure lib c w sess =
    let info = sess.info in
    let local = collect_local w.platform w.system in
    let http_error = http_echo w.echo_reply in
    let tls_error = tls_sniff w.tls_dial w.handshake in
    let nat = run_nat net_join_host_port info w.local_ip w.attempts in
    let pmtu = pmtu_of (run_pmtu sess.id info w.pmtu_net) in
    let doh = query_doh lib.decode_answers w.doh_fetch c.doh_url c.dns_host in
    let dns = run_dns lib.parse_addr c.dns_host c.doh_url w.resolved doh in
    let got = pull lib.decode_obs sess.id w.pull_start (w.polls before_pull) in
    let probe =
      build_probe_result sess.probe info (obs_or_none got)
        (outcome_of info http_error tls_error nat (reach_of w info)) in
    record {
      session = sess.id;
      started = w.started;
      duration = w.duration;
      local = local_or_none local;
      attribution =
          finalize_attribution (first_attribution lib.parse_addr local) (measured_of dns nat probe);
      public_ips = probe.exit_ips;
      probe = probe;
      nat = nat;
      pmtu = pmtu;
      dns = dns;
      reputation = reputation_of lib c w (primary_exit_ip probe.exit_ips);
      notes =
          context_note
          ∷ flatten (
              step_note (utf8 "本地采集失败") (fallible_error local)
              ∷ step_note (utf8 "HTTP echo") http_error
              ∷ step_note (utf8 "TLS 嗅探") tls_error
              ∷ step_note (utf8 "NAT 测试") (error_of nat w.nat_error)
              ∷ step_note (utf8 "PMTU") (error_of pmtu w.pmtu_error)
              ∷ step_note (utf8 "DNS") (error_of dns w.dns_error)
              ∷ step_note (utf8 "拉取观测") (pull_error got)
              ∷ []);
    }
