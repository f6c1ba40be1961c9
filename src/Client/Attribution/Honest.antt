-- ===== src/Client/Attribution/Honest.antt =====
-- What the attribution claims, and on what grounds.

use mathlib.Core.List.{Memᴰ}
use netsee.Client.Attribution.{
  Attribution, Measured, blocked_note, contains, finalize_attribution, go_stack, infer_proxy_stack,
  is_some_false, is_some_true, tcp_ok, tun_blocked, unnamed_note, with_fake_ip, with_stack,
  with_udp,
}
use netsee.Client.Types.{Observation, PortCheck}
use netsee.Prelude.{
  Bool-cases, List, [], ap, arith, false, if◌then◌else◌, inl, inr, none, refl, some, sym, true,
  ◌&&◌, ◌++◌, ◌↔◌, ◌∙◌, ◌∷◌, ◌≡◌, ◌≢◌, ◌⊎◌,
}
use netsee.Prelude.Text.{Bytes, bytes_beq, bytes_beq_iff, bytes_ne, is_empty, utf8}

-- Some observation has the JA3 of the table.
abbrev pub HasGoJa3 : List Observation → Type 0
HasGoJa3 obs = (o : Observation) × Memᴰ o obs × (o.ja3 ≡ utf8 "9b7dcdf3f997f1fb7b4409c94cb7ef36")

table_not_empty : is_empty (utf8 "9b7dcdf3f997f1fb7b4409c94cb7ef36") ≡ false
unfolding utf8
table_not_empty = refl

none_in_nil : ¬ HasGoJa3 []
none_in_nil (x, m, e) = elim m [ ]

later : (o : Observation) (obs : List Observation) → HasGoJa3 obs → HasGoJa3 (o ∷ obs)
later o obs (x, m, e) = (x, Memᴰ.tail m, e)

earlier :
    (o : Observation) (obs : List Observation)
    → o.ja3 ≢ utf8 "9b7dcdf3f997f1fb7b4409c94cb7ef36"
    → HasGoJa3 (o ∷ obs)
    → HasGoJa3 obs
earlier o obs n (x, Memᴰ.head s, e) = absurd (n (ap (λ y. y.ja3) (sym s) ∙ e))
earlier o obs n (x, Memᴰ.tail m, e) = (x, m, e)

differs : {s t : Bytes} → bytes_beq s t ≡ false → s ≢ t
differs {s} {t} h = bytes_ne s t h

-- A stack is named only by a fingerprint of the table, and always by one; any other is not named.
pub infer_proxy_stack_iff :
    (obs : List Observation)
    → ((infer_proxy_stack obs ≡ some go_stack) ↔ HasGoJa3 obs)
      × ((infer_proxy_stack obs ≡ none) ⊎ (infer_proxy_stack obs ≡ some go_stack))
unfolding infer_proxy_stack contains
infer_proxy_stack_iff [] = (((λ e. cc), (λ h. absurd (none_in_nil h))), inl refl)
infer_proxy_stack_iff (o ∷ obs) =
    let (iff, known) = infer_proxy_stack_iff obs in
    let same = bytes_beq_iff o.ja3 (utf8 "9b7dcdf3f997f1fb7b4409c94cb7ef36") in
    elim (Bool-cases (bytes_beq o.ja3 (utf8 "9b7dcdf3f997f1fb7b4409c94cb7ef36"))) [
      | inl hit ↦
          let e : o.ja3 ≡ utf8 "9b7dcdf3f997f1fb7b4409c94cb7ef36" = same.0 hit in
          let full : is_empty o.ja3 ≡ false = rw e table_not_empty in
          (((λ _. (o, Memᴰ.head refl, e)), (λ _. rw (full, hit) refl)), inr (rw (full, hit) refl))
      | inr miss ↦
          let skips : infer_proxy_stack (o ∷ obs) ≡ infer_proxy_stack obs = ground arith in
          (
            (
              (λ h. later o obs (iff.0 (sym skips ∙ h))),
              (λ h. skips ∙ iff.1 (earlier o obs (differs miss) h)),
            ),
            rw skips known,
          )
    ]

-- Some TCP port was reached.
abbrev pub ReachedTcp : List PortCheck → Type 0
ReachedTcp checks =
    (pc : PortCheck) × Memᴰ pc checks × (pc.proto ≡ utf8 "tcp") × (pc.connected ≡ true)

tcp_ok_forth : (checks : List PortCheck) → tcp_ok checks ≡ true → ReachedTcp checks
unfolding tcp_ok
tcp_ok_forth [] h = cc
tcp_ok_forth (pc ∷ checks) h = elim (Bool-cases (bytes_beq pc.proto (utf8 "tcp") && pc.connected)) [
  | inl hit ↦ (
    pc,
    Memᴰ.head refl,
    (bytes_beq_iff pc.proto (utf8 "tcp")).0 (ground (arith, hit)),
    ground (arith, hit),
  )
  | inr miss ↦
      let (x, m, proto, connected) = tcp_ok_forth checks (rw miss at h) in
      (x, Memᴰ.tail m, proto, connected)
]

tcp_ok_back : (checks : List PortCheck) → ReachedTcp checks → tcp_ok checks ≡ true
unfolding tcp_ok
tcp_ok_back [] (x, m, proto, connected) = elim m [ ]
tcp_ok_back (pc ∷ checks) (x, Memᴰ.head e, proto, connected) =
    let proto' : pc.proto ≡ utf8 "tcp" = rw e at proto in
    let connected' : pc.connected ≡ true = rw e at connected in
    let same = (bytes_beq_iff pc.proto (utf8 "tcp")).1 proto' in rw (same, connected') refl
tcp_ok_back (pc ∷ checks) (x, Memᴰ.tail m, proto, connected) =
    let rest = tcp_ok_back checks (x, m, proto, connected) in ground (arith, rest)

-- What the completed attribution `r` may claim, from what was measured.
pub record IsHonest (a : Attribution) (res : Measured) (r : Attribution) : Type 0 where
  pub same_tun : r.tun ≡ a.tun
  pub fake : (r.fake_ip ≡ true) ↔ ((a.fake_ip ≡ true) ⊎ (res.dns_fake_ip ≡ some true))
  pub blocked :
      (r.udp ≡ tun_blocked)
      ↔ ((a.tun ≡ true) × (res.nat_echo ≡ some false) × ReachedTcp res.connectivity)
  pub stack : r.proxy_stack ≡ (if a.tun then infer_proxy_stack res.observations else none)
  -- A proxy's exit that has no name is noted.
  pub noted :
      (a.tun ≡ false)
      ⊎ (is_empty r.note ≡ false)
      ⊎ (infer_proxy_stack res.observations ≡ some go_stack)

texts_not_empty :
    (is_empty tun_blocked ≡ false)
    × (is_empty unnamed_note ≡ false)
    × (is_empty blocked_note ≡ false)
unfolding utf8
texts_not_empty = (refl, refl, refl)

is_empty-append : (s t : Bytes) → is_empty s ≡ false → is_empty (s ++ t) ≡ false
is_empty-append [] t h = cc
is_empty-append (c ∷ s) t h = refl

unnamed_noted :
    (a : Attribution) (res : Measured)
    → a.tun ≡ true
    → infer_proxy_stack res.observations ≡ none
    → is_empty (finalize_attribution a res).note ≡ false
unfolding finalize_attribution with_fake_ip with_stack with_udp
unnamed_noted a res t n =
    let (_, unnamed, blocked) = texts_not_empty in
    ground (arith, is_empty-append unnamed_note (utf8 "；TCP 通但 UDP 不通，归因于 TUN 代理不转发 UDP") unnamed)

-- Starting from an attribution that claims nothing of UDP and names no stack: a TUN takeover is
-- neither invented nor forgotten; fake-ip is claimed on the ground of a resolver or of an answer;
-- blocked UDP is claimed exactly behind a TUN whose echo did not come back while a TCP port was
-- reached; a stack is named only behind a TUN; a proxy's exit without a name is noted.
pub finalize_attribution-IsHonest :
    (a : Attribution) (res : Measured)
    → is_empty a.udp ≡ true
    → a.proxy_stack ≡ none
    → IsHonest a res (finalize_attribution a res)
unfolding finalize_attribution with_fake_ip with_stack with_udp is_some_false is_some_true
finalize_attribution-IsHonest a res u p =
    let (block_text, _, _) = texts_not_empty in
    record {
      same_tun = ground arith;
      fake = ((λ h. ground arith), (λ h. ground arith));
      blocked = (
        λ h.
            let reached : (a.tun ≡ true)
                × (res.nat_echo ≡ some false)
                × (tcp_ok res.connectivity ≡ true) =
              ground arith in
            let (on, lost, ok) = reached in (on, lost, tcp_ok_forth res.connectivity ok),
        λ h.
            let (on, lost, reached) = h in
            let ok = tcp_ok_back res.connectivity reached in ground arith,
      );
      stack = ground arith;
      noted = elim (Bool-cases a.tun) [
        | inr off ↦ inl off
        | inl on ↦ elim (infer_proxy_stack_iff res.observations).1 [
          | inl unknown ↦ inr (inl (unnamed_noted a res on unknown))
          | inr known ↦ inr (inr known)
        ]
      ];
    }
