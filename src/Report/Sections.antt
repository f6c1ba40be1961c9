-- ===== src/Report/Sections.antt =====
-- What the sections of the report rest on.

use mathlib.Core.Option
use netsee.Client.Result.{Measurement, Result, alone, with_direct}
use netsee.Client.Types.{Observation}
use netsee.Prelude.{
  All, Bool, Bool-cases, List, Option, [], ap, false, inl, inr, length, none, not, refl, some, true,
  ◌++◌, ◌==◌, ◌∷◌, ◌≡◌,
}
use netsee.Prelude.Int.{ℤ}
use netsee.Prelude.Text.{Bytes, is_empty}
use netsee.Report.{
  build, build_dns, build_http, build_mtu, build_nat, build_overview, build_sheet, build_tcp,
  build_tls, first_with, honest_text,
}
use netsee.Report.Items.{Report, Sheet, layer_end, layer_exit, layer_path, sheet, with_direct_sheet}

-- The first observation that passes the test, with those in front of it failing, or none.
pub record IsFirst (p : Observation → Bool) (obs : List Observation) (o : Observation)
    : Type 0 where
  pub before : List Observation
  pub after : List Observation
  pub splits : obs ≡ before ++ (o ∷ after)
  pub passes : p o ≡ true
  pub failing : All (λ x. p x ≡ false) before

abbrev FirstOrNone : (Observation → Bool) → List Observation → Option Observation → Type 0
FirstOrNone p obs none = All (λ x. p x ≡ false) obs
FirstOrNone p obs (some o) = IsFirst p obs o

later :
    (p : Observation → Bool) (x : Observation) (obs : List Observation) (first : Option Observation)
    → p x ≡ false
    → FirstOrNone p obs first
    → FirstOrNone p (x ∷ obs) first
later p x obs none e h = (e, h)
later p x obs (some o) e h = record {
  before = x ∷ h.before;
  after = h.after;
  splits = ap (◌∷◌ x) h.splits;
  passes = h.passes;
  failing = (e, h.failing);
}

first_with-FirstOrNone :
    (p : Observation → Bool) (obs : List Observation) → FirstOrNone p obs (first_with p obs)
unfolding first_with
first_with-FirstOrNone p [] = tt
first_with-FirstOrNone p (x ∷ obs) = elim (Bool-cases (p x)) [
  | inl hit ↦
      rw hit (record { before = []; after = obs; splits = refl; passes = hit; failing = tt })
  | inr miss ↦ rw miss (later p x obs _ miss (first_with-FirstOrNone p obs))
]

-- No section, and then no observation has the fact; or the section of the first one that has it.
abbrev ShowsFirst {ℓ} :
    {A : Type ℓ}
    → (Observation → Bool)
    → (Observation → A → Type 0)
    → List Observation
    → Option A
    → Type 0
ShowsFirst p f obs none = All (λ x. p x ≡ false) obs
ShowsFirst p f obs (some item) = (o : Observation) × IsFirst p obs o × f o item

ShowsFirst-map {ℓ} :
    {A : Type ℓ} (p : Observation → Bool) (f : Observation → A → Type 0) (g : Observation → A)
    (obs : List Observation) (first : Option Observation)
    → ((o : Observation) → f o (g o))
    → FirstOrNone p obs first
    → ShowsFirst p f obs (Option.map g first)
ShowsFirst-map p f g obs none each h = h
ShowsFirst-map p f g obs (some o) each h = (o, h, each o)

-- A section is there exactly when its part of the result is.
abbrev SameDefined {ℓ κ} :
    {A : Type ℓ} {B : Type κ} → (A → B → Type 0) → Option A → Option B → Type 0
SameDefined f none none = Unit
SameDefined f none (some b) = ⊥
SameDefined f (some a) none = ⊥
SameDefined f (some a) (some b) = f a b

-- A sheet holds the facts of its measurement, and the summary agrees with the sections.
pub record IsFaithful (r : Measurement) (s : Sheet) : Type 0 where
  pub context : s.honest_context ≡ honest_text
  pub exits : s.overview.exit_count ≡ length s.overview.public_ips
  pub nat :
      SameDefined
        (λ n item.
          (item.facts ≡ n.facts)
          × (item.label ≡ n.label)
          × (item.premise ≡ n.premise)
          × (item.confidence ≡ n.confidence)
          × (s.overview.nat_type ≡ item.label)
          × (item.meta.layer ≡ layer_exit))
        r.nat
        s.nat
  pub mtu :
      SameDefined
        (λ p item.
          (item.path_mtu ≡ p.path_mtu)
          × (item.blackhole ≡ p.blackhole)
          × (item.note ≡ p.note)
          × (item.meta.layer ≡ layer_path))
        r.pmtu
        s.mtu
  pub dns :
      SameDefined
        (λ d item.
          (item.host ≡ d.host)
          × (item.system_answers ≡ d.system_answers)
          × (item.doh_answers ≡ d.doh_answers)
          × (item.doh_status ≡ d.doh_status)
          × (item.judgment ≡ d.judgment)
          × (item.premise ≡ d.premise)
          × (item.meta.layer ≡ layer_path))
        r.dns
        s.dns
  pub tcp :
      ShowsFirst
        (λ x. not (x.mss == 0))
        (λ o item.
          (item.mss ≡ o.mss)
          × (item.wscale ≡ o.wscale)
          × (item.sack ≡ o.sack)
          × (item.ts ≡ o.ts)
          × (item.ecn ≡ o.ecn)
          × (item.rtt_us ≡ o.rtt_us)
          × (item.meta.layer ≡ layer_end))
        r.probe.observations
        s.tcp
  pub tls :
      ShowsFirst
        (λ x. not (is_empty x.ja3))
        (λ o item.
          (item.ja3 ≡ o.ja3)
          × (item.ja4 ≡ o.ja4)
          × (item.sni ≡ o.sni)
          × (item.meta.layer ≡ layer_end))
        r.probe.observations
        s.tls
  pub http :
      ShowsFirst
        (λ x. not (is_empty x.http_method))
        (λ o item.
          (item.method ≡ o.http_method)
          × (item.path ≡ o.http_path)
          × (item.headers ≡ o.http_headers)
          × (item.traces ≡ o.http_traces)
          × (item.meta.layer ≡ layer_end))
        r.probe.observations
        s.http

-- Every level of the report, the direct measurement's included.
abbrev pub IsFaithfulReport : Result → Report → Type 0
IsFaithfulReport (alone r) (sheet s) = IsFaithful r s
IsFaithfulReport (alone r) (with_direct_sheet s rep) = ⊥
IsFaithfulReport (with_direct r d) (sheet s) = ⊥
IsFaithfulReport (with_direct r d) (with_direct_sheet s rep) =
    IsFaithful r s × IsFaithfulReport d rep

SameDefined-map {ℓ κ} :
    {A : Type ℓ} {B : Type κ} (f : A → B → Type 0) (g : A → B) (o : Option A)
    → ((a : A) → o ≡ some a → f a (g a))
    → SameDefined f o (Option.map g o)
SameDefined-map f g none h = tt
SameDefined-map f g (some a) h = h a refl

build_sheet-IsFaithful :
    (format : ℤ → Bytes) (r : Measurement) → IsFaithful r (build_sheet format r)
unfolding build_sheet build_overview build_nat build_mtu build_dns build_tcp build_tls build_http
build_sheet-IsFaithful format r = record {
  context = refl;
  exits = refl;
  nat = SameDefined-map _ _ r.nat (λ n e. (refl, refl, refl, refl, rw e refl, refl));
  mtu = SameDefined-map _ _ r.pmtu (λ p e. (refl, refl, refl, refl));
  dns = SameDefined-map _ _ r.dns (λ d e. (refl, refl, refl, refl, refl, refl, refl));
  tcp =
      ShowsFirst-map (λ x. not (x.mss == 0)) _ _ r.probe.observations _
        (λ o. (refl, refl, refl, refl, refl, refl, refl))
        (first_with-FirstOrNone _ r.probe.observations);
  tls =
      ShowsFirst-map (λ x. not (is_empty x.ja3)) _ _ r.probe.observations _
        (λ o. (refl, refl, refl, refl)) (first_with-FirstOrNone _ r.probe.observations);
  http =
      ShowsFirst-map (λ x. not (is_empty x.http_method)) _ _ r.probe.observations _
        (λ o. (refl, refl, refl, refl, refl)) (first_with-FirstOrNone _ r.probe.observations);
}

-- At every level, the direct comparison included: the honest line is there; the NAT, MTU and DNS
-- sections are there exactly when their part was measured, with its outcome and layer; the TCP, TLS
-- and HTTP sections show the facts of the first observation that has such a fact (an MSS, a JA3, a
-- method), and one is missing only if no observation has it; the summary's NAT type is the
-- section's label.
pub build-IsFaithfulReport : (format : ℤ → Bytes) (r : Result) → IsFaithfulReport r (build format r)
unfolding build
build-IsFaithfulReport format (alone r) = build_sheet-IsFaithful format r
build-IsFaithfulReport format (with_direct r d) =
    (build_sheet-IsFaithful format r, build-IsFaithfulReport format d)
