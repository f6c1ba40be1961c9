-- ===== src/Report/Text/Direct.antt =====
-- internal/report/text.go: the comparison of the direct path with the main one.
use netsee.Prelude.{List, Option, [], if◌then◌else◌, none, some, ◌++◌, ◌==◌, ◌∷◌}
use netsee.Prelude.Text.{Bytes, utf8}
use netsee.Prelude.Words.{itoa}
use netsee.Report.Items.{DnsItem, MtuItem, NatItem, Sheet, TcpItem, TlsItem}
use netsee.Report.Text.Format.{cat, join_or_na, na, pad_right}

-- `natLabel`, `tcpMSS`, `tlsJA3`, `mtuOf` and `dnsOf`
pub nat_label : Option NatItem → Bytes
nat_label none = na
nat_label (some n) = n.label

pub tcp_mss : Option TcpItem → Bytes
tcp_mss none = na
tcp_mss (some t) = if t.mss == 0 then na else itoa t.mss

pub tls_ja3 : Option TlsItem → Bytes
tls_ja3 none = na
tls_ja3 (some t) = t.ja3

pub mtu_of : Option MtuItem → Bytes
mtu_of none = na
mtu_of (some m) = itoa m.path_mtu

-- `PathMTUStr`, which the report's writers do not call.
unfoldable pub path_mtu_str : Option MtuItem → Bytes
path_mtu_str none = []
path_mtu_str (some m) = itoa m.path_mtu

pub dns_of : Option DnsItem → Bytes
dns_of none = na
dns_of (some d) = d.judgment

-- The left part of a `row`, and the row.
pub row_head : Bytes → Bytes → Bytes
row_head name a = cat (utf8 "  " ∷ pad_right 12 name ∷ utf8 " " ∷ pad_right 28 a ∷ [])

pub row : Bytes → Bytes → Bytes → Bytes
unfolding row_head
row name a b = row_head name a ++ (utf8 " vs " ++ b)

-- `renderDirectComparison`, with the sheets of the direct path and of the main one.
pub direct_lines : Sheet → Sheet → List Bytes
unfolding nat_label tcp_mss tls_ja3 mtu_of dns_of
direct_lines dir main =
    utf8 "十二、直连对比（直连路径 vs 主路径）"
    ∷ row (utf8 "公网 IP") (join_or_na dir.overview.public_ips) (join_or_na main.overview.public_ips)
    ∷ row (utf8 "NAT 类型") (nat_label dir.nat) (nat_label main.nat)
    ∷ row (utf8 "TCP MSS") (tcp_mss dir.tcp) (tcp_mss main.tcp)
    ∷ row (utf8 "TLS JA3") (tls_ja3 dir.tls) (tls_ja3 main.tls)
    ∷ row (utf8 "路径 MTU") (mtu_of dir.mtu) (mtu_of main.mtu)
    ∷ row (utf8 "DNS") (dns_of dir.dns) (dns_of main.dns)
    ∷ []
    ∷ []
