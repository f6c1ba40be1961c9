-- ===== src/Client/Attribution.antt =====
-- internal/client/attribution.go, and the part of run.go that completes the attribution: whether
-- what the probe saw is a proxy's exit.
pub mod Honest
mod Tests
use netsee.Client.Types.{Observation, PortCheck}
use netsee.Prelude.{
  Bool, List, Option, [], false, if◌then◌else◌, none, not, some, true, ℕ, ◌&&◌, ◌++◌, ◌/◌, ◌==◌,
  ◌||◌, ◌∷◌,
}
use netsee.Prelude.Text.{Bytes, bytes_beq, has_prefix, is_empty, utf8}

pub record ProxyStack : Type 0 where
  pub name : Bytes
  pub confidence : Bytes
  pub evidence : Bytes

pub record Attribution : Type 0 where
  pub tun : Bool
  pub tun_interface : Bytes
  pub fake_ip : Bool
  pub fake_ip_note : Bytes
  pub proxy_stack : Option ProxyStack
  pub udp : Bytes
  pub note : Bytes

-- `parseAddr` of net/netip: the four bytes of an IPv4 address, none for any other text. An IPv6
-- address, mapped IPv4 ones included, is in no IPv4 prefix.
abbrev pub ParseAddr : Type 0
ParseAddr = Bytes → Option (ℕ × ℕ × ℕ × ℕ)

unfoldable pub is_tun_interface : Bytes → Bool
is_tun_interface name =
    has_prefix name (utf8 "tun")
    || has_prefix name (utf8 "utun")
    || has_prefix name (utf8 "wg")
    || has_prefix name (utf8 "tun0")

-- `detectTUN`, by the interfaces of the default routes.
pub detect_tun : Bytes → Bytes → Bool × Bytes
detect_tun default_v4 default_v6 =
    if not (is_empty default_v4) && is_tun_interface default_v4
    then (true, default_v4)
    else if not (is_empty default_v6) && is_tun_interface default_v6
    then (true, default_v6)
    else (false, [])

-- `fakeIPRange.Contains`: 198.18.0.0/15, whose mask keeps the high 7 bits of the second byte.
unfoldable pub in_fake_range : ℕ × ℕ × ℕ × ℕ → Bool
in_fake_range (a, b, c, d) = a == 198 && b / 2 == 9

unfoldable pub is_fake_ip : ParseAddr → Bytes → Bool
is_fake_ip parse_addr addr = elim (parse_addr addr) [ none ↦ false | some ip ↦ in_fake_range ip ]

unfoldable pub detect_fake_ip_answer : ParseAddr → List Bytes → Bool
detect_fake_ip_answer parse_addr [] = false
detect_fake_ip_answer parse_addr (a ∷ answers) =
    let rest = detect_fake_ip_answer parse_addr answers in
    if is_fake_ip parse_addr a then true else rest

-- The resolvers are those of `ResolvConf.Nameservers`; none is a nil pointer.
pub detect_fake_ip_resolvers : ParseAddr → Option (List Bytes) → Bool
detect_fake_ip_resolvers parse_addr none = false
detect_fake_ip_resolvers parse_addr (some nameservers) =
    detect_fake_ip_answer parse_addr nameservers

abbrev go_stack_ja3_hashes : List Bytes
go_stack_ja3_hashes = utf8 "9b7dcdf3f997f1fb7b4409c94cb7ef36" ∷ []

abbrev pub go_stack : ProxyStack
go_stack = record {
  name = utf8 "Go 运行时栈（clash/sing-box 类代理）";
  confidence = utf8 "低（指纹随版本变化，保质期短）";
  evidence = utf8 "JA3 哈希匹配 Go crypto/tls 实测值（Go 1.26.6）";
}

contains : Bytes → List Bytes → Bool
contains s [] = false
contains s (h ∷ hs) = bytes_beq s h || contains s hs

pub infer_proxy_stack : List Observation → Option ProxyStack
unfolding contains
infer_proxy_stack [] = none
infer_proxy_stack (o ∷ obs) =
    let rest = infer_proxy_stack obs in
    if is_empty o.ja3
    then rest
    else if contains o.ja3 go_stack_ja3_hashes
    then some go_stack
    else rest

-- `tcpOK`
pub tcp_ok : List PortCheck → Bool
tcp_ok [] = false
tcp_ok (pc ∷ checks) =
    let rest = tcp_ok checks in
    if bytes_beq pc.proto (utf8 "tcp") && pc.connected then true else rest

-- What `finalizeAttribution` reads of the result: `FakeIPDetected` of the DNS part, the probe's
-- observations, the port checks, and `EchoReceived` of the NAT part.
pub record Measured : Type 0 where
  pub dns_fake_ip : Option Bool
  pub observations : List Observation
  pub connectivity : List PortCheck
  pub nat_echo : Option Bool

abbrev pub tun_blocked : Bytes
tun_blocked = utf8 "tun-blocked"

is_some_true : Option Bool → Bool
is_some_true none = false
is_some_true (some b) = b

is_some_false : Option Bool → Bool
is_some_false none = false
is_some_false (some b) = not b

with_fake_ip : Option Bool → Attribution → Attribution
unfolding is_some_true
with_fake_ip fake a =
    if is_some_true fake
    then record a {
      fake_ip = true;
      fake_ip_note = utf8 "系统解析返回 fake-ip 段（198.18.0.0/15），DNS 被代理接管";
    }
    else a

abbrev pub unnamed_note : Bytes
unnamed_note = utf8 "流量经 TUN 接管，探针观测为代理出口（程序未知，不点名）"

abbrev pub blocked_note : Bytes
blocked_note = utf8 "TCP 通但 UDP 不通，归因于 TUN 代理不转发 UDP（非端口封锁）"

with_stack : Option ProxyStack → Attribution → Attribution
with_stack none a = record a { proxy_stack = none; note = unnamed_note }
with_stack (some p) a = record a { proxy_stack = some p }

with_udp : Bool → Attribution → Attribution
with_udp blocked a =
    if blocked
    then record a {
      udp = tun_blocked;
      note =
          if is_empty a.note
          then blocked_note
          else a.note ++ utf8 "；TCP 通但 UDP 不通，归因于 TUN 代理不转发 UDP";
    }
    else a

pub finalize_attribution : Attribution → Measured → Attribution
unfolding with_fake_ip with_stack with_udp is_some_false
finalize_attribution a res =
    let a1 = with_fake_ip res.dns_fake_ip a in
    let a2 = with_stack (infer_proxy_stack res.observations) a1 in
    let blocked = is_some_false res.nat_echo && tcp_ok res.connectivity in
    if a1.tun then with_udp blocked a2 else a1
