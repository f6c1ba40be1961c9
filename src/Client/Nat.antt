-- ===== src/Client/Nat.antt =====
-- internal/client/nat.go: the NAT measurement and its label.
pub mod Judgment
pub mod Latest
pub mod EndToEnd
mod Tests
use netsee.Client.Types.{ProbeInfo}
use netsee.Prelude.{
  Bool, List, Option, [], false, if◌then◌else◌, none, not, some, ℕ, ◌&&◌, ◌++◌, ◌==◌, ◌∷◌,
}
use netsee.Prelude.Options.{◌>>=◌}
use netsee.Prelude.Text.{Bytes, bytes_beq, utf8}
use netsee.Proto.Types.{Obs, UdpObs, obs_udp, udp_echo, udp_nat}

-- One raw observation behind the label.
pub record NatFact : Type 0 where
  pub kind : Bytes
  pub detail : Bytes
  pub observed_src : Bytes
  pub reply_from : Bytes
  pub received : Bool

pub record NatResult : Type 0 where
  pub facts : List NatFact
  pub label : Bytes
  pub premise : Bytes
  pub confidence : Bytes
  pub echo_received : Bool
  pub nat_reply_received : Bool

abbrev pub label_direct : Bytes
label_direct = utf8 "直连（无 NAT 翻译）"

abbrev pub label_symmetric : Bytes
label_symmetric = utf8 "对称式映射"

abbrev pub label_address_restricted : Bytes
label_address_restricted = utf8 "地址受限锥形"

abbrev pub label_cone : Bytes
label_cone = utf8 "锥形（端口不过滤）"

abbrev pub label_port_restricted : Bytes
label_port_restricted = utf8 "端口受限锥形"

abbrev pub single_ip_premise : Bytes
single_ip_premise = utf8 "单 IP 探针无法区分全锥 vs 受限锥、对称 vs 端口依赖映射（需第二 IP 做完整 RFC 5780 分类）"

abbrev medium : Bytes
medium = utf8 "中"

-- `natJudgment`: label, confidence and premise.
pub nat_judgment : Bytes → Bytes → ℕ → ℕ → Bool → Bool → Bool → Bytes × Bytes × Bytes
nat_judgment local_ip observed_ip p1 p2 r3 second_ip r4 =
    if bytes_beq observed_ip local_ip
    then (label_direct, utf8 "高（探针观测源 IP 与本机一致）", [])
    else if not (p1 == p2)
    then (label_symmetric, medium, single_ip_premise)
    else if r3
    then (if second_ip && not r4
        then (label_address_restricted, medium, single_ip_premise)
        else (label_cone, medium, single_ip_premise))
    else (label_port_restricted, medium, single_ip_premise)

-- What the network does with one call of `send`: the write goes through, a reply is read before
-- the deadline, and `Pull` gives the observations of the session, or an error.
pub record Attempt : Type 0 where
  pub wrote : Bool
  pub received : Bool
  pub pulled : Option (List Obs)

-- What `send` returns if there is no error.
pub record Sent : Type 0 where
  pub src_ip : Bytes
  pub src_port : ℕ
  pub reply_from : Bytes
  pub received : Bool

-- `o.UDP != nil && o.UDP.Kind == kind`, with the reply's source.
has_udp_kind : Bytes → Option UdpObs → Bool
has_udp_kind kind none = false
has_udp_kind kind (some u) = bytes_beq u.kind kind

reply_of : Option UdpObs → Bytes
reply_of none = []
reply_of (some u) = u.reply_from

-- The loop of `send`, which goes from the last observation to the first.
pub find_sent : ℕ → Bytes → Bool → List Obs → Option Sent
unfolding has_udp_kind reply_of
find_sent port kind received [] = none
find_sent port kind received (o ∷ obs) = elim (find_sent port kind received obs) [
  | some s ↦ some s
  | none ↦
      if bytes_beq o.kind obs_udp && o.dst_port == port && has_udp_kind kind o.udp
      then some (record {
        src_ip = o.src_ip;
        src_port = o.src_port;
        reply_from = reply_of o.udp;
        received = received;
      })
      else none
]

pub send : ℕ → Bytes → Attempt → Option Sent
send port kind a = elim a.pulled [
  | none ↦ none
  | some obs ↦ if a.wrote then find_sent port kind a.received obs else none
]

-- The five calls of `send` that `RunNAT` makes, in order; the last only with a second IP.
pub record Attempts : Type 0 where
  pub first : Attempt
  pub again : Attempt
  pub other_port : Attempt
  pub filter_port : Attempt
  pub filter_ip : Attempt

-- The facts of the mapping tests and of the port filter.
facts_of : (Bytes → ℕ → Bytes) → Sent → Sent → Sent → Sent → List NatFact
facts_of join_host_port s1 s1b s2 s3 =
    fact (utf8 "mapping") (utf8 "echo → udp 端口（首次）") s1
    ∷ fact (utf8 "mapping") (utf8 "echo → udp 端口（同 socket 再次）") s1b
    ∷ fact (utf8 "mapping") (utf8 "echo → nat 端口（不同目标）") s2
    ∷ fact (utf8 "filter") (utf8 "nat → udp 端口，回包来自异端口") s3
    ∷ []
  where
    fact : Bytes → Bytes → Sent → NatFact
    fact kind detail s = record {
      kind = kind;
      detail = detail;
      observed_src = join_host_port s.src_ip s.src_port;
      reply_from = s.reply_from;
      received = s.received;
    }

-- The IP filter: no fact without a second IP. Its `r4` is a new variable of the block (`:=`), so
-- nothing of it reaches the judgment.
ip_filter : ProbeInfo → Attempt → Option (List NatFact)
ip_filter info a = elim (send info.udp_port udp_nat a) [
  | none ↦ if info.second_ip then none else some []
  | some s ↦ some (
      if info.second_ip
      then record {
        kind = utf8 "filter";
        detail = utf8 "nat → udp 端口，回包来自异 IP（second-ip）";
        observed_src = [];
        reply_from = s.reply_from;
        received = s.received;
      }
        ∷ []
      else [])
]

-- The end of `RunNAT`: `r4` of the function is still false here.
nat_result :
    (Bytes → ℕ → Bytes) → ProbeInfo → Bytes → Sent → Sent → Sent → Sent → List NatFact → NatResult
unfolding facts_of
nat_result join_host_port info local_ip s1 s1b s2 s3 filtered =
    let r4 = false in
    let (label, confidence, premise) =
      nat_judgment local_ip s1.src_ip s1.src_port s2.src_port s3.received info.second_ip r4 in
    record {
      facts = facts_of join_host_port s1 s1b s2 s3 ++ filtered;
      label = label;
      confidence = confidence;
      premise = premise;
      echo_received = s1.received;
      nat_reply_received = s3.received;
    }

-- `RunNAT` behind the socket's creation; none is an error. `net.JoinHostPort` is a parameter.
pub run_nat : (Bytes → ℕ → Bytes) → ProbeInfo → Bytes → Attempts → Option NatResult
unfolding ip_filter nat_result
run_nat join_host_port info local_ip a = do
  s1 ← send info.udp_port udp_echo a.first
  s1b ← send info.udp_port udp_echo a.again
  s2 ← send info.nat_port udp_echo a.other_port
  s3 ← send info.udp_port udp_nat a.filter_port
  filtered ← ip_filter info a.filter_ip
  some (nat_result join_host_port info local_ip s1 s1b s2 s3 filtered)
