-- ===== src/Report/Highlights.antt =====
-- When the summary says that nothing stands out.
use netsee.Client.Attribution.{ProxyStack, tun_blocked}
use netsee.Client.Nat.{NatResult, label_port_restricted, label_symmetric}
use netsee.Client.Result.{Measurement}
use netsee.Prelude.{
  Bool, List, Option, [], arith, false, length, ltb, none, not, refl, some, true, ℕ, ◌&&◌, ◌++◌,
  ◌↔◌, ◌∷◌, ◌≡◌, ◌≢◌, ◌≤◌,
}
use netsee.Prelude.Text.{Bytes, bytes_beq, bytes_beq_iff, bytes_ne}
use netsee.Report.{
  clean_text, flags, has_blackhole, highlights, is_proxy, is_suspect, line, nat_line, stack_line,
}

append_nil_iff {ℓ} : {A : Type ℓ} (xs ys : List A) → (xs ++ ys ≡ []) ↔ ((xs ≡ []) × (ys ≡ []))
append_nil_iff [] ys = ((λ h. (refl, h)), (λ h. h.1))
append_nil_iff (x ∷ xs) ys = ((λ h. cc), (λ h. cc))

line_iff : (b : Bool) (text : Bytes) → (line b text ≡ []) ↔ (b ≡ false)
unfolding line
line_iff true text = ((λ h. cc), (λ h. cc))
line_iff false text = ((λ h. refl), (λ h. refl))

stack_line_iff : (p : Option ProxyStack) → (stack_line p ≡ []) ↔ (p ≡ none)
unfolding stack_line
stack_line_iff none = ((λ h. refl), (λ h. refl))
stack_line_iff (some p) = ((λ h. cc), (λ h. cc))

-- No NAT result, or one whose label is not worth a line.
abbrev IsQuietNat : Option NatResult → Type 0
IsQuietNat none = Unit
IsQuietNat (some n) = (n.label ≢ label_symmetric) × (n.label ≢ label_port_restricted)

nat_line_iff : (n : Option NatResult) → (nat_line n ≡ []) ↔ IsQuietNat n
unfolding nat_line line
nat_line_iff none = ((λ h. tt), (λ h. refl))
nat_line_iff (some n) =
    let symmetric = bytes_beq_iff n.label label_symmetric in
    let restricted = bytes_beq_iff n.label label_port_restricted in
    ((λ h. ((λ e. ground arith), (λ e. ground arith))), (λ h. ground arith))

-- Nothing of what was measured is worth a line.
pub record IsClean (r : Measurement) : Type 0 where
  pub no_tun : r.attribution.tun ≡ false
  pub no_fake_ip : r.attribution.fake_ip ≡ false
  pub no_stack : r.attribution.proxy_stack ≡ none
  pub udp_passes : r.attribution.udp ≢ tun_blocked
  pub one_exit : length r.public_ips ≤ 1
  pub quiet_nat : IsQuietNat r.nat
  pub no_blackhole : has_blackhole r.pmtu ≡ false
  pub no_suspicion : is_suspect r.dns ≡ false
  pub no_proxy : is_proxy r.reputation ≡ false

few_iff : {n : ℕ} → (ltb 1 n ≡ false) ↔ (n ≤ 1)
few_iff {n} = ((λ h. ground arith), (λ h. ground arith))

unmasked_iff : {b c : Bool} → c ≡ false → ((b && not c) ≡ false) ↔ (b ≡ false)
unmasked_iff {b} {c} e = ((λ h. ground arith), (λ h. ground arith))

flags-IsClean : (r : Measurement) → flags r ≡ [] → IsClean r
unfolding flags
flags-IsClean r h =
    let (tun, h1) = (append_nil_iff _ _).0 h in
    let (fake, h2) = (append_nil_iff _ _).0 h1 in
    let (stack, h3) = (append_nil_iff _ _).0 h2 in
    let (udp, h4) = (append_nil_iff _ _).0 h3 in
    let (ips, h5) = (append_nil_iff _ _).0 h4 in
    let (nat, h6) = (append_nil_iff _ _).0 h5 in
    let (hole, h7) = (append_nil_iff _ _).0 h6 in
    let (dns, proxy) = (append_nil_iff _ _).0 h7 in
    let fake' = (line_iff _ _).0 fake in
    let udp' = (line_iff _ _).0 udp in
    record {
      no_tun = (line_iff _ _).0 tun;
      no_fake_ip = fake';
      no_stack = (stack_line_iff _).0 stack;
      udp_passes = bytes_ne _ _ udp';
      one_exit = few_iff.0 ((line_iff _ _).0 ips);
      quiet_nat = (nat_line_iff r.nat).0 nat;
      no_blackhole = (line_iff _ _).0 hole;
      no_suspicion = (unmasked_iff fake').0 ((line_iff _ _).0 dns);
      no_proxy = (line_iff _ _).0 proxy;
    }

clean_flags : (r : Measurement) → IsClean r → flags r ≡ []
unfolding flags
clean_flags r c =
    let udp : bytes_beq r.attribution.udp tun_blocked ≡ false =
      ground (arith, bytes_beq_iff r.attribution.udp tun_blocked, c.udp_passes) in
    both ((line_iff _ _).1 c.no_tun) (
      both ((line_iff _ _).1 c.no_fake_ip) (
        both ((stack_line_iff _).1 c.no_stack) (
          both ((line_iff _ _).1 udp) (
            both ((line_iff _ _).1 (few_iff.1 c.one_exit)) (
              both ((nat_line_iff r.nat).1 c.quiet_nat) (
                both ((line_iff _ _).1 c.no_blackhole) (
                  both ((line_iff _ _).1 ((unmasked_iff c.no_fake_ip).1 c.no_suspicion))
                    ((line_iff _ _).1 c.no_proxy))))))))
  where
    both : {xs ys : List Bytes} → xs ≡ [] → ys ≡ [] → xs ++ ys ≡ []
    both {xs} {ys} e f = (append_nil_iff xs ys).1 (e, f)

-- The summary is never empty, and it has no line of its own exactly when there is no TUN, no fake
-- IP, no named stack, no blocked UDP, no second exit, no NAT label worth a line, no blackhole, no
-- suspected hijack and no proxy.
pub highlights-IsClean_iff : (r : Measurement) → (highlights r ≢ []) × ((flags r ≡ []) ↔ IsClean r)
unfolding highlights
highlights-IsClean_iff r = (not_empty (flags r), (flags-IsClean r, clean_flags r))
  where
    not_empty : (f : List Bytes) → (elim f [ [] ↦ clean_text ∷ [] | x ∷ h ↦ x ∷ h ]) ≢ []
    not_empty [] e = cc
    not_empty (x ∷ h) e = cc
