-- ===== src/Report.antt =====
-- internal/report/report.go: the report that text and JSON are rendered from.
pub mod Items
pub mod Highlights
pub mod Sections
pub mod Text
mod Tests
use mathlib.Core.Option
use netsee.Client.Attribution.{ProxyStack, tun_blocked}
use netsee.Client.Dns.{DnsResult}
use netsee.Client.Nat.{NatResult, label_port_restricted, label_symmetric}
use netsee.Client.Pmtu.{PmtuResult}
use netsee.Client.Result.{Measurement, Result, alone, with_direct}
use netsee.Client.Types.{Observation, ReputationResult}
use netsee.Prelude.{
  Bool, List, Option, [], false, if◌then◌else◌, length, ltb, none, not, some, ℕ, ◌&&◌, ◌++◌, ◌==◌,
  ◌||◌, ◌∷◌,
}
use netsee.Prelude.Int.{ℤ}
use netsee.Prelude.Text.{Bytes, bytes_beq, has_prefix, is_empty, utf8}
use netsee.Report.Items.{
  DnsItem, HttpItem, Local, MtuItem, NatItem, Overview, Report, ReputationItem, Sheet, TcpItem,
  TlsItem, layer_end, layer_exit, layer_path, sheet, with_direct_sheet,
}

abbrev pub honest_text : Bytes
honest_text = utf8 "沿途节点有能力看到以下信息；是否真的在看取决于具体服务商。本工具测的是暴露面，不是实际被监视。"

abbrev pub clean_text : Bytes
clean_text = utf8 "未发现显著异常"

line : Bool → Bytes → List Bytes
line b text = if b then text ∷ [] else []

-- The lines on the proxy's stack, on the NAT's label and on the three optional parts.
stack_line : Option ProxyStack → List Bytes
stack_line none = []
stack_line (some p) = (utf8 "代理栈: " ++ p.name) ∷ []

nat_line : Option NatResult → List Bytes
unfolding line
nat_line none = []
nat_line (some n) =
    if bytes_beq n.label label_symmetric
    then utf8 "对称式 NAT 映射" ∷ []
    else line (bytes_beq n.label label_port_restricted) (utf8 "端口受限锥形 NAT")

pub has_blackhole : Option PmtuResult → Bool
has_blackhole none = false
has_blackhole (some p) = p.blackhole

-- `strings.Contains(s, sub)`
pub contains : Bytes → Bytes → Bool
contains [] sub = has_prefix [] sub
contains (c ∷ s) sub = has_prefix (c ∷ s) sub || contains s sub

pub is_suspect : Option DnsResult → Bool
is_suspect none = false
is_suspect (some d) = contains d.judgment (utf8 "疑似")

pub is_proxy : Option ReputationResult → Bool
is_proxy none = false
is_proxy (some r) = r.proxy

-- The lines of `highlights`, in order, before the line for none.
pub flags : Measurement → List Bytes
unfolding line stack_line nat_line
flags r =
    let a = r.attribution in
    line a.tun (utf8 "流量经 TUN 接管，探针观测为代理出口（非本机直连）")
    ++ (line a.fake_ip (utf8 "DNS 被代理接管（fake-ip）")
        ++ (stack_line a.proxy_stack
            ++ (line (bytes_beq a.udp tun_blocked) (utf8 "UDP 未被代理转发")
                ++ (line (ltb 1 (length r.public_ips)) (utf8 "多个公网出口 IP（v4/v6 或多路径）")
                    ++ (nat_line r.nat
                        ++ (line (has_blackhole r.pmtu) (utf8 "疑似 PMTU 黑洞")
                            ++ (line (is_suspect r.dns && not a.fake_ip) (utf8 "DNS 疑似劫持/分流（低置信度）")
                                ++ line (is_proxy r.reputation) (utf8 "出口 IP 标记为代理/机房"))))))))

pub highlights : Measurement → List Bytes
highlights r = elim (flags r) [ [] ↦ clean_text ∷ [] | x ∷ h ↦ x ∷ h ]

-- The first RTT that is not 0.
first_rtt : List Observation → ℕ
first_rtt [] = 0
first_rtt (o ∷ obs) = let rest = first_rtt obs in if ltb 0 o.rtt_us then o.rtt_us else rest

pub build_overview : Measurement → Overview
unfolding first_rtt
build_overview r = record {
  public_ips = r.public_ips;
  exit_count = length r.public_ips;
  nat_type = elim r.nat [ none ↦ [] | some n ↦ n.label ];
  rtt_us = first_rtt r.probe.observations;
  highlights = highlights r;
}

build_local : Measurement → Local
build_local r =
    let l = r.local in
    let a = r.attribution in
    record {
      default_route_v4 = l.default_route_v4;
      default_gw_v4 = l.default_gw_v4;
      default_route_v6 = l.default_route_v6;
      mtu = l.default_mtu;
      interfaces = length l.interfaces;
      nameservers = elim l.resolv_conf [ none ↦ [] | some rc ↦ rc.nameservers ];
      tun = a.tun;
      tun_interface = a.tun_interface;
      fake_ip = a.fake_ip;
      fake_ip_note = a.fake_ip_note;
      proxy_stack = elim a.proxy_stack [ none ↦ [] | some p ↦ p.name ];
      udp = a.udp;
      note = a.note;
    }

pub build_nat : Option NatResult → Option NatItem
build_nat = Option.map (λ n. record {
  meta = record { layer = layer_exit; observed_by = utf8 "探针 UDP NAT 回包" };
  facts = n.facts;
  label = n.label;
  premise = n.premise;
  confidence = n.confidence;
})

-- The first observation that passes a test: the loops of `buildTCP`, `buildTLS` and `buildHTTP`.
pub first_with : (Observation → Bool) → List Observation → Option Observation
first_with p [] = none
first_with p (o ∷ obs) = let rest = first_with p obs in if p o then some o else rest

pub build_tcp : List Observation → Option TcpItem
build_tcp obs =
    Option.map
      (λ o. record {
        meta = record { layer = layer_end; observed_by = utf8 "探针 TCP_INFO" };
        mss = o.mss;
        wscale = o.wscale;
        sack = o.sack;
        ts = o.ts;
        ecn = o.ecn;
        rtt_us = o.rtt_us;
      })
      (first_with (λ o. not (o.mss == 0)) obs)

pub build_tls : List Observation → Option TlsItem
build_tls obs =
    Option.map
      (λ o. record {
        meta = record { layer = layer_end; observed_by = utf8 "探针 TLS 嗅探" };
        ja3 = o.ja3;
        ja4 = o.ja4;
        sni = o.sni;
      })
      (first_with (λ o. not (is_empty o.ja3)) obs)

build_http : List Observation → Option HttpItem
build_http obs =
    Option.map
      (λ o. record {
        meta = record { layer = layer_end; observed_by = utf8 "探针 HTTP echo" };
        method = o.http_method;
        path = o.http_path;
        headers = o.http_headers;
        traces = o.http_traces;
      })
      (first_with (λ o. not (is_empty o.http_method)) obs)

pub build_mtu : Option PmtuResult → Option MtuItem
build_mtu = Option.map (λ p. record {
  meta = record { layer = layer_path; observed_by = utf8 "探针 UDP pmtu" };
  path_mtu = p.path_mtu;
  blackhole = p.blackhole;
  note = p.note;
})

pub build_dns : Option DnsResult → Option DnsItem
build_dns = Option.map (λ d. record {
  meta = record { layer = layer_path; observed_by = utf8 "系统解析器 + DoH" };
  host = d.host;
  system_answers = d.system_answers;
  doh_answers = d.doh_answers;
  doh_status = d.doh_status;
  judgment = d.judgment;
  premise = d.premise;
})

build_reputation : Option ReputationResult → Option ReputationItem
build_reputation = Option.map (λ r. record {
  meta = record { layer = layer_exit; observed_by = utf8 "外部 IP 信誉库（ip-api/ipinfo）" };
  country = r.country;
  region = r.region;
  city = r.city;
  isp = r.isp;
  as_number = r.as_number;
  proxy = r.proxy;
  hosting = r.hosting;
  source = r.source;
  note = r.note;
})

-- One level of `Build`; `time.Format` is a parameter.
pub build_sheet : (ℤ → Bytes) → Measurement → Sheet
build_sheet format r = record {
  session = r.session;
  generated = format r.started;
  duration = r.duration;
  honest_context = honest_text;
  overview = build_overview r;
  local = build_local r;
  nat = build_nat r.nat;
  observations = r.probe.observations;
  tcp = build_tcp r.probe.observations;
  tls = build_tls r.probe.observations;
  http = build_http r.probe.observations;
  ports = r.probe.connectivity;
  mtu = build_mtu r.pmtu;
  dns = build_dns r.dns;
  reputation = build_reputation r.reputation;
  notes = r.notes;
}

pub build : (ℤ → Bytes) → Result → Report
build format (alone r) = sheet (build_sheet format r)
build format (with_direct r d) = with_direct_sheet (build_sheet format r) (build format d)
