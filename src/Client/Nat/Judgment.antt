-- ===== src/Client/Nat/Judgment.antt =====
-- What the NAT label says of the observations, and which observation `send` reads.
use netsee.Client.Nat.{
  Attempt, Attempts, NatFact, NatResult, Sent, facts_of, ip_filter, label_address_restricted,
  label_cone, label_direct, label_port_restricted, label_symmetric, nat_judgment, nat_result,
  run_nat, send,
}
use netsee.Client.Types.{ProbeInfo}
use netsee.Prelude.{
  ==_iff, Bool, Bool-cases, List, Option-cases, arith, false, if◌then◌else◌, inl, inr, length, refl,
  some, true, ℕ, ◌↔◌, ◌≡◌, ◌≢◌,
}
use netsee.Prelude.Options.{bind_some}
use netsee.Prelude.Text.{Bytes, bytes_beq, bytes_beq_iff, bytes_ne, utf8}
use netsee.Proto.Types.{udp_echo, udp_nat}

-- The label against the addresses that the probe saw (`s1` at the UDP port, `s2` at the NAT port)
-- and the reply `s3` from the other port.
pub record IsLabelled (local_ip : Bytes) (s1 s2 s3 : Sent) (second_ip : Bool) (label : Bytes)
    : Type 0 where
  pub direct : (label ≡ label_direct) ↔ (s1.src_ip ≡ local_ip)
  pub symmetric : (label ≡ label_symmetric) ↔ ((s1.src_ip ≢ local_ip) × (s1.src_port ≢ s2.src_port))
  pub port_restricted :
      (label ≡ label_port_restricted)
      ↔ ((s1.src_ip ≢ local_ip) × (s1.src_port ≡ s2.src_port) × (s3.received ≡ false))
  pub address_restricted : (label ≡ label_address_restricted) ↔ (
      (s1.src_ip ≢ local_ip)
      × (s1.src_port ≡ s2.src_port)
      × (s3.received ≡ true)
      × (second_ip ≡ true))
  pub cone : (label ≡ label_cone) ↔ (
      (s1.src_ip ≢ local_ip)
      × (s1.src_port ≡ s2.src_port)
      × (s3.received ≡ true)
      × (second_ip ≡ false))

labels_differ :
    (label_direct ≢ label_symmetric)
    × (label_direct ≢ label_port_restricted)
    × (label_direct ≢ label_address_restricted)
    × (label_direct ≢ label_cone)
    × (label_symmetric ≢ label_port_restricted)
    × (label_symmetric ≢ label_address_restricted)
    × (label_symmetric ≢ label_cone)
    × (label_port_restricted ≢ label_address_restricted)
    × (label_port_restricted ≢ label_cone)
    × (label_address_restricted ≢ label_cone)
unfolding utf8 bytes_beq
labels_differ = (
  bytes_ne _ _ refl,
  bytes_ne _ _ refl,
  bytes_ne _ _ refl,
  bytes_ne _ _ refl,
  bytes_ne _ _ refl,
  bytes_ne _ _ refl,
  bytes_ne _ _ refl,
  bytes_ne _ _ refl,
  bytes_ne _ _ refl,
  bytes_ne _ _ refl,
)

-- The label that `RunNAT` judges by, whose `r4` is false.
nat_judgment-IsLabelled :
    (local_ip : Bytes) (s1 s2 s3 : Sent) (second_ip : Bool)
    → IsLabelled local_ip s1 s2 s3 second_ip
        (nat_judgment local_ip s1.src_ip s1.src_port s2.src_port s3.received second_ip false).0
unfolding nat_judgment
nat_judgment-IsLabelled local_ip s1 s2 s3 second_ip =
    let (a, b, c, d, e, f, g, h, i, j) = labels_differ in
    let same_ip = bytes_beq_iff s1.src_ip local_ip in
    let same_port = ==_iff s1.src_port s2.src_port in
    elim (Bool-cases (bytes_beq s1.src_ip local_ip)) [
      | inl direct ↦ record {
        direct = ((λ _. ground arith), (λ _. ground arith));
        symmetric = ((λ x. ground arith), (λ x. ground arith));
        port_restricted = ((λ x. ground arith), (λ x. ground arith));
        address_restricted = ((λ x. ground arith), (λ x. ground arith));
        cone = ((λ x. ground arith), (λ x. ground arith));
      }
      | inr natted ↦ record {
        direct = ((λ x. ground arith), (λ x. ground arith));
        symmetric = ((λ x. ground arith), (λ x. ground arith));
        port_restricted = ((λ x. ground arith), (λ x. ground arith));
        address_restricted = ((λ x. ground arith), (λ x. ground arith));
        cone = ((λ x. ground arith), (λ x. ground arith));
      }
    ]

ip_filter-length :
    (info : ProbeInfo) (a : Attempt) {facts : List NatFact}
    → ip_filter info a ≡ some facts
    → length facts ≡ (if info.second_ip then 1 else 0)
unfolding ip_filter
ip_filter-length info a {facts} h = elim (Option-cases (send info.udp_port udp_nat a)) [
  | inl fails ↦ elim (Bool-cases info.second_ip) [ inl two ↦ ground arith | inr one ↦ ground arith ]
  | inr (s, e) ↦ elim (Bool-cases info.second_ip) [
    | inl two ↦ ground arith
    | inr one ↦ ground arith
  ]
]

module _ (join_host_port : Bytes → ℕ → Bytes) (info : ProbeInfo) (local_ip : Bytes)
    (a : Attempts) where
  -- What a result of `RunNAT` says, by the three sends it is judged from.
  pub record IsJudged (res : NatResult) : Type 0 where
    pub s1 : Sent
    pub s2 : Sent
    pub s3 : Sent
    pub echoed : send info.udp_port udp_echo a.first ≡ some s1
    pub at_nat : send info.nat_port udp_echo a.other_port ≡ some s2
    pub filtered : send info.udp_port udp_nat a.filter_port ≡ some s3
    pub labelled : IsLabelled local_ip s1 s2 s3 info.second_ip res.label
    pub facts_count : length res.facts ≡ (if info.second_ip then 5 else 4)

  -- `RunNAT` labels by the addresses that the probe saw from one socket at two destinations, and by
  -- whether the reply from the other port was read. With a second IP the label is never the cone
  -- that filters no port, whatever comes back from the second IP: the result of that test does not
  -- reach the judgment.
  pub run_nat-IsJudged :
      (res : NatResult) → run_nat join_host_port info local_ip a ≡ some res → IsJudged res
  unfolding run_nat
  run_nat-IsJudged res h =
      let (s1, echoed, h1) = bind_some (send info.udp_port udp_echo a.first) _ h in
      let (s1b, again, h2) = bind_some (send info.udp_port udp_echo a.again) _ h1 in
      let (s2, at_nat, h3) = bind_some (send info.nat_port udp_echo a.other_port) _ h2 in
      let (s3, filtered, h4) = bind_some (send info.udp_port udp_nat a.filter_port) _ h3 in
      let (more_facts, by_ip, h5) = bind_some (ip_filter info a.filter_ip) _ h4 in
      judged s1 s1b s2 s3 more_facts echoed at_nat filtered by_ip cc
    where
      judged :
          (s1 s1b s2 s3 : Sent) (more_facts : List NatFact)
          → send info.udp_port udp_echo a.first ≡ some s1
          → send info.nat_port udp_echo a.other_port ≡ some s2
          → send info.udp_port udp_nat a.filter_port ≡ some s3
          → ip_filter info a.filter_ip ≡ some more_facts
          → nat_result join_host_port info local_ip s1 s1b s2 s3 more_facts ≡ res
          → IsJudged res
      judged s1 s1b s2 s3 more_facts echoed at_nat filtered by_ip e = record {
        s1 = s1;
        s2 = s2;
        s3 = s3;
        echoed = echoed;
        at_nat = at_nat;
        filtered = filtered;
        labelled =
            rw (← e)
              (unfold nat_result in nat_judgment-IsLabelled local_ip s1 s2 s3 info.second_ip);
        facts_count =
            rw (← e) (
              unfold nat_result facts_of in
              ground (arith, ip_filter-length info a.filter_ip by_ip));
      }
