-- ===== src/Report/Text.antt =====
-- internal/report/text.go: the report as text. Each call of `p` is one line.
pub mod Format
pub mod Layers
pub mod Direct
pub mod Shown
mod Tests
use mathlib.Core.List.{map}
use netsee.Client.Attribution.{tun_blocked}
use netsee.Client.Nat.{NatFact}
use netsee.Client.Result.{Note}
use netsee.Client.Types.{Observation, PortCheck}
use netsee.Prelude.{
  List, Option, [], flatten, if◌then◌else◌, length, ltb, none, not, some, ℕ, ◌++◌, ◌+◌, ◌∷◌,
}
use netsee.Prelude.Text.{Bytes, bytes_beq, is_empty, join, utf8}
use netsee.Prelude.Words.{itoa}
use netsee.Report.Items.{Local, NatItem, Overview, Report, Sheet, sheet, with_direct_sheet}
use netsee.Report.Text.Direct.{direct_lines}
use netsee.Report.Text.Format.{
  Floats, bool_text, bullets, cat, header_lines, join_or_na, observed, or_na, pad_right, short_id,
  tcp_text, when,
}
use netsee.Report.Text.Layers.{
  dns_lines, http_lines, mtu_lines, reputation_lines, tcp_lines, tls_lines,
}

pub head_lines : Floats → Sheet → List Bytes
head_lines fl rep =
    utf8 "NetSee 网络暴露面检测报告"
    ∷ cat (
        utf8 "会话 "
        ∷ short_id rep.session
        ∷ utf8 " · "
        ∷ rep.generated
        ∷ utf8 " · 耗时 "
        ∷ fl.seconds rep.duration
        ∷ utf8 "s"
        ∷ [])
    ∷ []
    ∷ (utf8 "诚实上下文: " ++ rep.honest_context)
    ∷ []
    ∷ []

overview_blocks : Floats → Overview → List (List Bytes)
unfolding bullets
overview_blocks fl o =
    (utf8 "一、概览"
      ∷ (utf8 "  公网出口 IP: " ++ join_or_na o.public_ips)
      ∷ (utf8 "  出口数: " ++ itoa o.exit_count)
      ∷ [])
    ∷ when (not (is_empty o.nat_type)) ((utf8 "  NAT 类型: " ++ o.nat_type) ∷ [])
    ∷ when (ltb 0 o.rtt_us) (cat (utf8 "  探针侧 RTT: " ∷ fl.millis o.rtt_us ∷ utf8 " ms" ∷ []) ∷ [])
    ∷ (utf8 "  突出发现:" ∷ [])
    ∷ bullets (utf8 "    - ") o.highlights
    ∷ ([] ∷ [])
    ∷ []

pub overview_lines : Floats → Overview → List Bytes
unfolding flatten overview_blocks
overview_lines fl o = flatten (overview_blocks fl o)

-- `renderAttribution`
pub attribution_lines : Local → List Bytes
unfolding flatten
attribution_lines l = flatten (
    when l.tun (cat (utf8 "  归因: TUN " ∷ l.tun_interface ∷ utf8 " 接管 → 探针观测为代理出口（非本机直连）" ∷ []) ∷ [])
    ∷ when l.fake_ip (cat (utf8 "  归因: fake-ip 命中（" ∷ l.fake_ip_note ∷ utf8 "）" ∷ []) ∷ [])
    ∷ when (not (is_empty l.proxy_stack)) ((utf8 "  归因: 代理栈 " ++ l.proxy_stack) ∷ [])
    ∷ when (bytes_beq l.udp tun_blocked) (utf8 "  归因: UDP 未被代理转发（非端口封锁）" ∷ [])
    ∷ when (not (is_empty l.note)) ((utf8 "  归因: " ++ l.note) ∷ [])
    ∷ [])

pub local_lines : Local → List Bytes
unfolding attribution_lines flatten
local_lines l = flatten (
    (utf8 "二、本机网络"
      ∷ cat (
          utf8 "  默认路由: "
          ∷ or_na l.default_route_v4
          ∷ utf8 " (MTU "
          ∷ itoa l.mtu
          ∷ utf8 ") 网关 "
          ∷ or_na l.default_gw_v4
          ∷ [])
      ∷ [])
    ∷ when (not (is_empty l.default_route_v6)) ((utf8 "  IPv6 默认路由: " ++ l.default_route_v6) ∷ [])
    ∷ ((utf8 "  接口: " ++ itoa l.interfaces) ∷ [])
    ∷ when (ltb 0 (length l.nameservers))
        ((utf8 "  DNS 解析器: " ++ join (utf8 ", ") l.nameservers) ∷ [])
    ∷ attribution_lines l
    ∷ ([] ∷ [])
    ∷ [])

pub fact_line : NatFact → Bytes
fact_line f = cat (
    utf8 "    - "
    ∷ f.detail
    ∷ utf8 ": 探针观测 src="
    ∷ f.observed_src
    ∷ utf8 ", 回包来源="
    ∷ f.reply_from
    ∷ utf8 ", 收到="
    ∷ bool_text f.received
    ∷ [])

pub label_line : NatItem → Bytes
label_line n = cat (utf8 "  判定: " ∷ n.label ∷ utf8 "（置信度 " ∷ n.confidence ∷ utf8 "）" ∷ [])

nat_blocks : NatItem → List (List Bytes)
nat_blocks n =
    (observed (utf8 "三、出口层 — NAT 判定") n.meta ∷ utf8 "  原始事实:" ∷ [])
    ∷ (map fact_line n.facts ++ (label_line n ∷ []))
    ∷ when (not (is_empty n.premise)) ((utf8 "  前提: " ++ n.premise) ∷ [])
    ∷ ([] ∷ [])
    ∷ []

pub nat_lines : Option NatItem → List Bytes
unfolding flatten nat_blocks
nat_lines none = []
nat_lines (some n) = flatten (nat_blocks n)

pub seen_line : ℕ → Observation → Bytes
seen_line number o = cat (
    utf8 "  "
    ∷ itoa number
    ∷ utf8 ". "
    ∷ pad_right 4 o.kind
    ∷ utf8 " "
    ∷ o.src_ip
    ∷ utf8 ":"
    ∷ itoa o.src_port
    ∷ utf8 " → :"
    ∷ itoa o.dst_port
    ∷ [])

pub observation_lines : ℕ → Observation → List Bytes
unfolding flatten
observation_lines number o =
    seen_line number o
    ∷ flatten (
        when (ltb 0 o.mss) (
          cat (
            utf8 "      TCP: "
            ∷ (tcp_text o.mss o.wscale o.sack o.ts o.ecn
                ++ (utf8 " rtt=" ∷ itoa o.rtt_us ∷ utf8 "us" ∷ [])))
          ∷ [])
        ∷ when (not (is_empty o.ja3)) (
            cat (utf8 "      TLS: ja3=" ∷ o.ja3 ∷ utf8 " ja4=" ∷ o.ja4 ∷ utf8 " sni=" ∷ o.sni ∷ [])
            ∷ [])
        ∷ when (not (is_empty o.http_method)) (
            cat (utf8 "      HTTP: " ∷ o.http_method ∷ utf8 " " ∷ o.http_path ∷ [])
            ∷ header_lines (utf8 "        ") o.http_headers)
        ∷ when (not (is_empty o.reply_from)) ((utf8 "      UDP: reply_from=" ++ o.reply_from) ∷ [])
        ∷ [])

-- The loop over the observations, from `i + 1`.
pub all_observation_lines : ℕ → List Observation → List Bytes
all_observation_lines number [] = []
all_observation_lines number (o ∷ obs) =
    observation_lines number o ++ all_observation_lines (number + 1) obs

pub seen_lines : List Observation → List Bytes
seen_lines obs =
    cat (utf8 "四、对方视角总表（探针观测 " ∷ itoa (length obs) ∷ utf8 " 条）" ∷ [])
    ∷ (all_observation_lines 1 obs ++ ([] ∷ []))

pub port_line : PortCheck → Bytes
port_line pc = cat (
    utf8 "  :"
    ∷ itoa pc.port
    ∷ utf8 "/"
    ∷ pc.proto
    ∷ utf8 " "
    ∷ (if pc.connected then utf8 "通" else utf8 "不通")
    ∷ utf8 "（"
    ∷ (if pc.probe_saw then utf8 "探针确认" else utf8 "探针未观测")
    ∷ utf8 "）["
    ∷ (if pc.consistent then utf8 "一致" else utf8 "不一致")
    ∷ utf8 "]"
    ∷ [])

pub port_lines : List PortCheck → List Bytes
port_lines ports = utf8 "八、端口连通性 [观测点: 客户端尝试 + 探针回报比对]" ∷ (map port_line ports ++ ([] ∷ []))

pub note_line : Note → Bytes
note_line n = cat (utf8 "  [" ∷ n.level ∷ utf8 "] " ∷ n.text ∷ [])

-- The sections of `RenderText` in the order of its calls, each with its lines.
pub sections : Floats → Sheet → List Bytes → List (List Bytes)
sections fl rep direct =
    head_lines fl rep
    ∷ overview_lines fl rep.overview
    ∷ local_lines rep.local
    ∷ nat_lines rep.nat
    ∷ seen_lines rep.observations
    ∷ tcp_lines fl rep.tcp
    ∷ tls_lines rep.tls
    ∷ http_lines rep.http
    ∷ port_lines rep.ports
    ∷ mtu_lines rep.mtu
    ∷ dns_lines rep.dns
    ∷ reputation_lines rep.reputation
    ∷ direct
    ∷ (utf8 "备注" ∷ map note_line rep.notes)
    ∷ []

-- `*rep`, without `Direct`.
pub sheet_of : Report → Sheet
sheet_of (sheet s) = s
sheet_of (with_direct_sheet s d) = s

pub text_lines : Floats → Report → List Bytes
unfolding sections flatten sheet_of
text_lines fl (sheet s) = flatten (sections fl s [])
text_lines fl (with_direct_sheet s d) = flatten (sections fl s (direct_lines (sheet_of d) s))

-- Every line with its newline.
with_newlines : List Bytes → Bytes
with_newlines [] = []
with_newlines (l ∷ ls) = l ++ (10 ∷ with_newlines ls)

pub render_text : Floats → Report → Bytes
unfolding with_newlines
render_text fl rep = with_newlines (text_lines fl rep)
