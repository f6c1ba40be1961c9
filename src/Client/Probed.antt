-- ===== src/Client/Probed.antt =====
-- internal/client/run.go: `buildProbeResult`, which turns the probe's observations into the
-- client's view of them.
pub mod Views
mod Tests
use mathlib.Core.List.{map}
use netsee.Client.Result.{ProbeResult}
use netsee.Client.Types.{Observation, PortCheck, ProbeInfo}
use netsee.Prelude.{
  Bool, List, Option, [], false, if◌then◌else◌, leb, none, not, some, true, ℕ, ◌&&◌, ◌++◌, ◌+◌,
  ◌==◌, ◌||◌, ◌∷◌,
}
use netsee.Prelude.Sort.{sort_strings}
use netsee.Prelude.Text.{Bytes, bytes_beq, is_empty, utf8}
use netsee.Proto.Types.{Header, HttpObs, Obs, TcpInfo, TlsFingerprint, UdpObs}

-- ASCII letters without their case. A header's key is ASCII, where `strings.EqualFold` is this.
lower : Bytes → Bytes
lower [] = []
lower (c ∷ s) = (if leb b'A' c && leb c b'Z' then c + 32 else c) ∷ lower s

pub equal_fold : Bytes → Bytes → Bool
unfolding lower
equal_fold s t = bytes_beq (lower s) (lower t)

abbrev proxy_trace_headers : List Bytes
proxy_trace_headers =
    utf8 "X-Forwarded-For"
    ∷ utf8 "X-Forwarded-Proto"
    ∷ utf8 "X-Forwarded-Host"
    ∷ utf8 "Via"
    ∷ utf8 "Forwarded"
    ∷ utf8 "Proxy-Connection"
    ∷ utf8 "X-Real-Ip"
    ∷ utf8 "True-Client-Ip"
    ∷ []

-- The inner loop of `transparentProxyTraces`.
traces_in : Header → List Bytes → List Bytes
traces_in h [] = []
traces_in h (t ∷ ts) =
    let rest = traces_in h ts in
    if equal_fold h.key t then (h.key ++ (utf8 ": " ++ h.value)) ∷ rest else rest

pub transparent_proxy_traces : List Header → List Bytes
unfolding traces_in
transparent_proxy_traces [] = []
transparent_proxy_traces (h ∷ headers) =
    traces_in h proxy_trace_headers ++ transparent_proxy_traces headers

with_tcp : Option TcpInfo → Observation → Observation
with_tcp none ob = ob
with_tcp (some ti) ob = record ob {
  mss = ti.mss;
  wscale = ti.wscale;
  sack = ti.sack;
  ts = ti.ts;
  ecn = ti.ecn;
  rtt_us = ti.rtt_us;
}

with_tls : Option TlsFingerprint → Observation → Observation
with_tls none ob = ob
with_tls (some t) ob = record ob { ja3 = t.ja3; ja4 = t.ja4; sni = t.sni }

with_reply : Option UdpObs → Observation → Observation
with_reply none ob = ob
with_reply (some u) ob = record ob { reply_from = u.reply_from }

with_http : Option HttpObs → Observation → Observation
with_http none ob = ob
with_http (some h) ob = record ob {
  http_method = h.method;
  http_path = h.path;
  http_headers = h.headers;
  http_traces = transparent_proxy_traces h.headers;
}

observation_of : Obs → Observation
unfolding with_tcp with_tls with_reply with_http
observation_of o = with_http o.http (
    with_reply o.udp (
      with_tls o.tls (
        with_tcp o.tcp_info (record {
          kind = o.kind;
          src_ip = o.src_ip;
          src_port = o.src_port;
          dst_port = o.dst_port;
          mss = 0;
          wscale = false;
          sack = false;
          ts = false;
          ecn = false;
          rtt_us = 0;
          ja3 = [];
          ja4 = [];
          sni = [];
          reply_from = [];
          http_method = [];
          http_path = [];
          http_headers = [];
          http_traces = [];
        }))))

-- The observations with a source, in order.
unfoldable pub with_source : List Obs → List Obs
with_source [] = []
with_source (o ∷ obs) = let rest = with_source obs in if is_empty o.src_ip then rest else o ∷ rest

pub has : Bytes → List Bytes → Bool
has ip [] = false
has ip (x ∷ ips) = bytes_beq x ip || has ip ips

-- `exitIPs[ip] = true`, on the keys of the map.
add_ip : Bytes → List Bytes → List Bytes
add_ip ip ips = if has ip ips then ips else ip ∷ ips

ip_set : List Obs → List Bytes
unfolding add_ip
ip_set [] = []
ip_set (o ∷ obs) = add_ip o.src_ip (ip_set obs)

pub exit_ips_of : List Obs → List Bytes
unfolding ip_set
exit_ips_of obs = sort_strings (ip_set (with_source obs))

-- `sawPort[port]`
unfoldable pub saw_port : List Obs → ℕ → Bool
saw_port [] port = false
saw_port (o ∷ obs) port = o.dst_port == port || saw_port obs port

-- `connected == sawPort[port]`
same : Bool → Bool → Bool
same true b = b
same false b = not b

pub port_check : List Obs → ℕ → Bytes → Bool → PortCheck
unfolding same
port_check obs port proto connected = record {
  port = port;
  proto = proto;
  connected = connected;
  probe_saw = saw_port obs port;
  consistent = same connected (saw_port obs port);
}

-- The checks of the four ports, but for those that no outcome is known of.
main_checks : List Obs → ProbeInfo → (ℕ → Option Bool) → List ℕ → List PortCheck
main_checks obs info outcomes [] = []
main_checks obs info outcomes (port ∷ ports) =
    let rest = main_checks obs info outcomes ports in
    let proto = if port == info.udp_port || port == info.nat_port then utf8 "udp" else utf8 "tcp" in
    elim (outcomes port) [
      | none ↦ rest
      | some connected ↦ port_check obs port proto connected ∷ rest
    ]

-- The checks of the extra ports; a missing outcome is false.
extra_checks : List Obs → (ℕ → Option Bool) → List ℕ → List PortCheck
extra_checks obs outcomes [] = []
extra_checks obs outcomes (port ∷ ports) =
    port_check obs port (utf8 "tcp") (elim (outcomes port) [ none ↦ false | some b ↦ b ])
    ∷ extra_checks obs outcomes ports

pub build_probe_result : Bytes → ProbeInfo → List Obs → (ℕ → Option Bool) → ProbeResult
unfolding main_checks extra_checks
build_probe_result probe info obs outcomes =
    let seen = with_source obs in
    record {
      probe_url = probe;
      protocol_ver = info.protocol_version;
      info = some info;
      observations = map observation_of seen;
      exit_ips = exit_ips_of obs;
      connectivity =
          main_checks seen info outcomes
            (info.http_port ∷ info.tls_port ∷ info.udp_port ∷ info.nat_port ∷ [])
          ++ extra_checks seen outcomes info.extra_ports;
    }

-- `primaryExitIP`
pub primary_exit_ip : List Bytes → Bytes
primary_exit_ip [] = []
primary_exit_ip (ip ∷ ips) = ip
