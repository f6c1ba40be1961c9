-- ===== src/Client/Probed/Views.antt =====
-- What the client's view keeps of the observations.

use mathlib.Core.List.{Memᴰ}
use netsee.Client.Probed.{
  add_ip, build_probe_result, exit_ips_of, extra_checks, has, ip_set, main_checks, port_check, same,
  saw_port, with_source,
}
use netsee.Client.Types.{PortCheck, ProbeInfo}
use netsee.Prelude.{
  ==_iff, All, All-append, Bool, Bool-cases, In, In-right, List, Option, Option-cases, [], ap,
  arith, false, get_elem?, inl, inr, not, refl, some, suc, true, zero, ℕ, ◌&&◌, ◌==◌, ◌||◌, ◌↔◌,
  ◌∙◌, ◌∷◌, ◌≡◌,
}
use netsee.Prelude.Sort.{insert_string, sort_strings}
use netsee.Prelude.Text.{Bytes, bytes_beq, bytes_beq_iff, is_empty, utf8}
use netsee.Proto.Types.{Obs}

-- An observation with a source was made at the port.
abbrev pub SeenAt : List Obs → ℕ → Type 0
SeenAt obs port = (o : Obs) × Memᴰ o obs × (is_empty o.src_ip ≡ false) × (o.dst_port ≡ port)

-- A check agrees with the observations.
pub record IsConfirmed (obs : List Obs) (pc : PortCheck) : Type 0 where
  pub saw : (pc.probe_saw ≡ true) ↔ SeenAt obs pc.port
  pub agrees : (pc.consistent ≡ true) ↔ (pc.connected ≡ pc.probe_saw)

later : (o : Obs) (obs : List Obs) (port : ℕ) → SeenAt obs port → SeenAt (o ∷ obs) port
later o obs port (x, m, full, at) = (x, Memᴰ.tail m, full, at)

-- One more observation, before what is known of the others.
saw_forth :
    (o : Obs) (obs : List Obs) (port : ℕ)
    → (saw_port (with_source obs) port ≡ true → SeenAt obs port)
    → saw_port (with_source (o ∷ obs)) port ≡ true
    → SeenAt (o ∷ obs) port
unfolding saw_port with_source
saw_forth o obs port others h = elim (Bool-cases (is_empty o.src_ip)) [
  | inl empty ↦ later o obs port (others (rw empty at h))
  | inr full ↦ elim (Bool-cases (o.dst_port == port)) [
    | inl hit ↦ (o, Memᴰ.head refl, full, (==_iff o.dst_port port).0 hit)
    | inr away ↦ later o obs port (others (rw (full, away, saw_port) at h))
  ]
]

saw_back :
    (o : Obs) (obs : List Obs) (port : ℕ)
    → (SeenAt obs port → saw_port (with_source obs) port ≡ true)
    → SeenAt (o ∷ obs) port
    → saw_port (with_source (o ∷ obs)) port ≡ true
unfolding saw_port with_source
saw_back o obs port others (x, Memᴰ.head e, full, at_port) =
    let full' : is_empty o.src_ip ≡ false = rw e at full in
    let at_port' : o.dst_port ≡ port = rw e at at_port in
    let hit : (o.dst_port == port) ≡ true = (==_iff o.dst_port port).1 at_port' in
    rw (full', saw_port) (rw hit refl)
saw_back o obs port others (x, Memᴰ.tail m, full, at_port) =
    let rest = others (x, m, full, at_port) in ground (arith, rest)

pub saw_port_iff :
    (obs : List Obs) (port : ℕ) → (saw_port (with_source obs) port ≡ true) ↔ SeenAt obs port
saw_port_iff [] port = ((λ h. unfold saw_port with_source in cc), none_at port)
  where
    none_at : (p : ℕ) → SeenAt [] p → saw_port (with_source []) p ≡ true
    none_at p (x, m, full, at_port) = elim m [ ]
saw_port_iff (o ∷ obs) port =
    let iff = saw_port_iff obs port in (saw_forth o obs port iff.0, saw_back o obs port iff.1)

same_iff : (a b : Bool) → (same a b ≡ true) ↔ (a ≡ b)
unfolding same
same_iff a b = ((λ h. ground arith), (λ h. ground arith))

port_check-IsConfirmed :
    (obs : List Obs) (port : ℕ) (proto : Bytes) (connected : Bool)
    → IsConfirmed obs (port_check (with_source obs) port proto connected)
unfolding port_check
port_check-IsConfirmed obs port proto connected = record {
  saw = saw_port_iff obs port;
  agrees = same_iff connected _;
}

main_checks-IsConfirmed :
    (obs : List Obs) (info : ProbeInfo) (outcomes : ℕ → Option Bool) (ports : List ℕ)
    → All (IsConfirmed obs) (main_checks (with_source obs) info outcomes ports)
unfolding main_checks
main_checks-IsConfirmed obs info outcomes [] = tt
main_checks-IsConfirmed obs info outcomes (port ∷ ports) = elim (Option-cases (outcomes port)) [
  | inl unknown ↦ rw (unknown, main_checks) (main_checks-IsConfirmed obs info outcomes ports)
  | inr (connected, e) ↦
      rw (e, main_checks)
        (
          port_check-IsConfirmed obs port _ connected,
          main_checks-IsConfirmed obs info outcomes ports,
        )
]

extra_checks-IsConfirmed :
    (obs : List Obs) (outcomes : ℕ → Option Bool) (ports : List ℕ)
    → All (IsConfirmed obs) (extra_checks (with_source obs) outcomes ports)
unfolding extra_checks
extra_checks-IsConfirmed obs outcomes [] = tt
extra_checks-IsConfirmed obs outcomes (port ∷ ports) =
    (port_check-IsConfirmed obs port _ _, extra_checks-IsConfirmed obs outcomes ports)

extra_checks-In :
    (obs : List Obs) (outcomes : ℕ → Option Bool) (ports : List ℕ) (i port : ℕ) (connected : Bool)
    → get_elem? ports i ≡ some port
    → outcomes port ≡ some connected
    → In (port_check obs port (utf8 "tcp") connected) (extra_checks obs outcomes ports)
unfolding extra_checks
extra_checks-In obs outcomes [] i port connected h e = cc
extra_checks-In obs outcomes (p ∷ ports) zero port connected h e =
    let hit : p ≡ port = ground arith in inl (rw (hit, e) refl)
extra_checks-In obs outcomes (p ∷ ports) (suc i) port connected h e =
    inr (extra_checks-In obs outcomes ports i port connected h e)

-- The check of an extra port is in the result.
pub build_probe_result-extra :
    (probe : Bytes) (info : ProbeInfo) (obs : List Obs) (outcomes : ℕ → Option Bool) (i port : ℕ)
    (connected : Bool)
    → get_elem? info.extra_ports i ≡ some port
    → outcomes port ≡ some connected
    → In
        (port_check (with_source obs) port (utf8 "tcp") connected)
        (build_probe_result probe info obs outcomes).connectivity
unfolding build_probe_result
build_probe_result-extra probe info obs outcomes i port connected h e =
    In-right _
      (main_checks (with_source obs) info outcomes
        (info.http_port ∷ info.tls_port ∷ info.udp_port ∷ info.nat_port ∷ []))
      _ (extra_checks-In (with_source obs) outcomes info.extra_ports i port connected h e)

-- The check of a port at which the probe saw nothing: it agrees with the client only where the
-- client did not get through either.
pub port_check-unseen :
    (obs : List Obs) (port : ℕ) (proto : Bytes) (connected : Bool)
    → saw_port obs port ≡ false
    → port_check obs port proto connected ≡ record {
      port = port;
      proto = proto;
      connected = connected;
      probe_saw = false;
      consistent = not connected;
    }
unfolding port_check same
port_check-unseen obs port proto true h = rw h refl
port_check-unseen obs port proto false h = rw h refl

-- Every port check says that the probe saw a connection exactly if an observation with a source was
-- made at that port, and calls itself consistent exactly if the client's outcome agrees with that.
pub build_probe_result-IsConfirmed :
    (probe : Bytes) (info : ProbeInfo) (obs : List Obs) (outcomes : ℕ → Option Bool)
    → All (IsConfirmed obs) (build_probe_result probe info obs outcomes).connectivity
unfolding build_probe_result
build_probe_result-IsConfirmed probe info obs outcomes =
    let main = info.http_port ∷ info.tls_port ∷ info.udp_port ∷ info.nat_port ∷ [] in
    All-append (IsConfirmed obs) (main_checks (with_source obs) info outcomes main)
      (extra_checks (with_source obs) outcomes info.extra_ports)
      (main_checks-IsConfirmed obs info outcomes main)
      (extra_checks-IsConfirmed obs outcomes info.extra_ports)

-- Some observation comes from the address.
pub comes_from : Bytes → List Obs → Bool
comes_from ip [] = false
comes_from ip (o ∷ obs) = (not (is_empty o.src_ip) && bytes_beq o.src_ip ip) || comes_from ip obs

has-insert_string :
    (ip s : Bytes) (l : List Bytes) → has ip (insert_string s l) ≡ (bytes_beq s ip || has ip l)
unfolding has insert_string
has-insert_string ip s [] = refl
has-insert_string ip s (t ∷ l) = ground (arith, has-insert_string ip s l)

has-sort_strings : (ip : Bytes) (l : List Bytes) → has ip (sort_strings l) ≡ has ip l
unfolding has sort_strings
has-sort_strings ip [] = refl
has-sort_strings ip (s ∷ l) =
    ground (arith, has-insert_string ip s (sort_strings l), has-sort_strings ip l)

has-add_ip :
    (ip x : Bytes) (ips : List Bytes) → has ip (add_ip x ips) ≡ (bytes_beq x ip || has ip ips)
unfolding add_ip has
has-add_ip ip x ips = elim (Bool-cases (has x ips)) [
  | inr fresh ↦ rw fresh refl
  | inl held ↦ elim (Bool-cases (bytes_beq x ip)) [
    | inr other ↦ rw (held, other) refl
    | inl equal ↦
        let e : x ≡ ip = (bytes_beq_iff x ip).0 equal in
        let held' : has ip ips ≡ true = rw e at held in rw (held, equal) held'
  ]
]

has-ip_set : (ip : Bytes) (obs : List Obs) → has ip (ip_set (with_source obs)) ≡ comes_from ip obs
unfolding has ip_set with_source comes_from
has-ip_set ip [] = refl
has-ip_set ip (o ∷ obs) = elim (Bool-cases (is_empty o.src_ip)) [
  | inl empty ↦ rw empty (has-ip_set ip obs)
  | inr full ↦ rw full (
      has-add_ip ip o.src_ip (ip_set (with_source obs))
      ∙ ap (λ b. bytes_beq o.src_ip ip || b) (has-ip_set ip obs))
]

-- The exit addresses are exactly the sources of the observations.
pub has-exit_ips_of : (ip : Bytes) (obs : List Obs) → has ip (exit_ips_of obs) ≡ comes_from ip obs
unfolding exit_ips_of
has-exit_ips_of ip obs = has-sort_strings ip _ ∙ has-ip_set ip obs
