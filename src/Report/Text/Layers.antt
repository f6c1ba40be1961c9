-- ===== src/Report/Text/Layers.antt =====
-- internal/report/text.go: the sections on the layers, each empty where the report has no such part.
use netsee.Prelude.{
  Bool, List, Option, [], flatten, if◌then◌else◌, length, ltb, none, not, some, ◌++◌, ◌∷◌,
}
use netsee.Prelude.Text.{Bytes, bytes_beq, is_empty, join, utf8}
use netsee.Prelude.Words.{itoa}
use netsee.Report.Items.{DnsItem, HttpItem, MtuItem, ReputationItem, TcpItem, TlsItem}
use netsee.Report.Text.Format.{
  Floats, bullets, cat, header_lines, join_or_na, observed, tcp_text, when,
}

-- The three parts of `renderEndSections`.
pub tcp_lines : Floats → Option TcpItem → List Bytes
tcp_lines fl none = []
tcp_lines fl (some t) =
    observed (utf8 "五、终点层 — TCP 指纹") t.meta
    ∷ cat (
        utf8 "  "
        ∷ (tcp_text t.mss t.wscale t.sack t.ts t.ecn
            ++ (utf8 " rtt=" ∷ fl.millis t.rtt_us ∷ utf8 "ms" ∷ [])))
    ∷ []
    ∷ []

pub tls_lines : Option TlsItem → List Bytes
unfolding flatten
tls_lines none = []
tls_lines (some t) = flatten (
    (observed (utf8 "六、终点层 — TLS 指纹") t.meta
      ∷ (utf8 "  ja3=" ++ t.ja3)
      ∷ (utf8 "  ja4=" ++ t.ja4)
      ∷ [])
    ∷ when (not (is_empty t.sni)) ((utf8 "  sni=" ++ t.sni) ∷ [])
    ∷ ([] ∷ [])
    ∷ [])

pub http_lines : Option HttpItem → List Bytes
unfolding flatten
http_lines none = []
http_lines (some h) = flatten (
    (observed (utf8 "七、终点层 — HTTP 视角") h.meta
      ∷ cat (utf8 "  " ∷ h.method ∷ utf8 " " ∷ h.path ∷ [])
      ∷ header_lines (utf8 "    ") h.headers)
    ∷ when (ltb 0 (length h.traces)) (utf8 "  透明代理痕迹:" ∷ bullets (utf8 "    - ") h.traces)
    ∷ ([] ∷ [])
    ∷ [])

pub mtu_lines : Option MtuItem → List Bytes
unfolding flatten
mtu_lines none = []
mtu_lines (some m) = flatten (
    (observed (utf8 "九、路径层 — 路径 MTU") m.meta
      ∷ cat (utf8 "  " ∷ itoa m.path_mtu ∷ (if m.blackhole then utf8 " [疑似 PMTU 黑洞]" else []) ∷ [])
      ∷ [])
    ∷ when (not (is_empty m.note)) ((utf8 "  " ++ m.note) ∷ [])
    ∷ ([] ∷ [])
    ∷ [])

pub dns_lines : Option DnsItem → List Bytes
unfolding flatten
dns_lines none = []
dns_lines (some d) = flatten (
    (observed (utf8 "十、路径层 — DNS") d.meta
      ∷ cat (utf8 "  " ∷ d.host ∷ utf8 " 系统解析: " ∷ join_or_na d.system_answers ∷ [])
      ∷ cat (utf8 "  " ∷ d.host ∷ utf8 " DoH 解析: " ∷ join_or_na d.doh_answers ∷ [])
      ∷ (utf8 "  判定: " ++ d.judgment)
      ∷ [])
    ∷ when (not (is_empty d.premise)) ((utf8 "  前提: " ++ d.premise) ∷ [])
    ∷ ([] ∷ [])
    ∷ [])

-- `marks`
marks : Bool → Bool → List Bytes
marks proxy hosting = when proxy (utf8 "代理标记" ∷ []) ++ when hosting (utf8 "机房标记" ∷ [])

-- What a source says of the address.
known_lines : ReputationItem → List Bytes
unfolding flatten marks
known_lines r =
    let ms = marks r.proxy r.hosting in
    flatten (
      (cat (utf8 "  " ∷ r.country ∷ utf8 " " ∷ r.region ∷ utf8 " " ∷ r.city ∷ utf8 " " ∷ r.isp ∷ [])
        ∷ [])
      ∷ when (not (is_empty r.as_number)) ((utf8 "  AS: " ++ r.as_number) ∷ [])
      ∷ when (ltb 0 (length ms)) ((utf8 "  标记: " ++ join (utf8 ", ") ms) ∷ [])
      ∷ [])

pub reputation_lines : Option ReputationItem → List Bytes
unfolding flatten known_lines
reputation_lines none = []
reputation_lines (some r) = flatten (
    (observed (utf8 "十一、出口层 — IP 信誉") r.meta ∷ [])
    ∷ (if bytes_beq r.source (utf8 "unavailable")
        then (utf8 "  不可用: " ++ r.note) ∷ []
        else known_lines r)
    ∷ ([] ∷ [])
    ∷ [])
