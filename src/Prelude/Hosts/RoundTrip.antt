-- ===== src/Prelude/Hosts/RoundTrip.antt =====
-- `net.SplitHostPort` on what `net.JoinHostPort` writes.
use Prim.Native.Nat.{ℕ, ◌+◌, ◌≤◌}
use mathlib.Core.Path.{◌≡◌, refl, ap, ◌∙◌}
use mathlib.Core.Logic.{inl, inr}
use mathlib.Core.Bool.{true, false, ◌||◌}
use mathlib.Core.Option.{none, some}
use mathlib.Core.List.{[], ◌∷◌, ◌++◌, append_assoc}
use native.Mathlib.Omega.{arith}
use netsee.Prelude.Hosts.{
  bracketed, has_byte, cut_first, cut_last, net_join_host_port, net_split_host_port, unbracketed,
}
use netsee.Prelude.Lists.{All, length, length-append}
use netsee.Prelude.Tests.{==_iff, Bool-cases, ◌==◌, if◌then◌else◌}
use netsee.Prelude.Text.{Bytes}
use netsee.Prelude.Words.{itoa}
use netsee.Prelude.Words.Decimal.{IsDigit, digits_of-IsDigit}

has_byte-append : (c : ℕ) (a b : Bytes) → has_byte c (a ++ b) ≡ (has_byte c a || has_byte c b)
unfolding has_byte
has_byte-append c [] b = refl
has_byte-append c (d ∷ a) b = ground (arith, has_byte-append c a b)

-- No byte outside the digits stands in a number.
has_byte-digits : (c : ℕ) (s : Bytes) → All IsDigit s → (b'9' + 1 ≤ c) → has_byte c s ≡ false
unfolding has_byte
has_byte-digits c [] h out = refl
has_byte-digits c (d ∷ s) h out =
    let digit = h.0 in let rest = has_byte-digits c s h.1 out in ground (arith, rest)

cut_last-none : (c : ℕ) (s : Bytes) → has_byte c s ≡ false → cut_last c s ≡ none
unfolding has_byte cut_last
cut_last-none c [] h = refl
cut_last-none c (d ∷ s) h = ground (arith, cut_last-none c s)

cut_last-append :
    (c : ℕ) (a b : Bytes) → has_byte c b ≡ false → cut_last c (a ++ (c ∷ b)) ≡ some (a, b)
unfolding cut_last
cut_last-append c [] b h =
    let same : (c == c) ≡ true = (==_iff c c).1 refl in
    rw (cut_last, cut_last-none c b h, same) refl
cut_last-append c (d ∷ a) b h = rw (cut_last, cut_last-append c a b h) refl

cut_first-append :
    (c : ℕ) (a b : Bytes) → has_byte c a ≡ false → cut_first c (a ++ (c ∷ b)) ≡ some (a, b)
unfolding cut_first has_byte
cut_first-append c [] b h =
    let same : (c == c) ≡ true = (==_iff c c).1 refl in rw (cut_first, same) refl
cut_first-append c (d ∷ a) b h =
    let other : (d == c) ≡ false = ground (arith, h) in
    let rest : has_byte c a ≡ false = ground (arith, h) in
    rw (cut_first, other, cut_first-append c a b rest) refl

has_byte-itoa : (c n : ℕ) → b'9' + 1 ≤ c → has_byte c (itoa n) ≡ false
unfolding itoa
has_byte-itoa c n out = has_byte-digits c (itoa n) (digits_of-IsDigit 20 n) out

-- A host without brackets of its own.
pub record IsBare (host : Bytes) : Type 0 where
  pub no_left : has_byte b'[' host ≡ false
  pub no_right : has_byte b']' host ≡ false

unbracketed-host :
    (host port : Bytes)
    → IsBare host
    → IsBare port
    → has_byte b':' host ≡ false
    → unbracketed (host ++ (b':' ∷ port)) host port ≡ some (host, port)
unfolding unbracketed has_byte
unbracketed-host host port bare bare_port plain =
    let left = has_byte-append b'[' host (b':' ∷ port) in
    let right = has_byte-append b']' host (b':' ∷ port) in
    let passes : (has_byte b':' host
          || has_byte b'[' (host ++ (b':' ∷ port))
          || has_byte b']' (host ++ (b':' ∷ port)))
        ≡ false =
      ground
        (arith, left, right, bare.no_left, bare.no_right, bare_port.no_left, bare_port.no_right) in
    rw (unbracketed, passes) refl

bracketed-host :
    (host port : Bytes)
    → IsBare host
    → IsBare port
    → bracketed (b'[' ∷ (host ++ (b']' ∷ b':' ∷ port))) (b'[' ∷ (host ++ (b']' ∷ []))) port
      ≡ some (host, port)
unfolding bracketed has_byte
bracketed-host host port bare bare_port =
    let cut : cut_first b']' ((b'[' ∷ host) ++ (b']' ∷ b':' ∷ port))
        ≡ some (b'[' ∷ host, b':' ∷ port) =
      cut_first-append b']' (b'[' ∷ host) (b':' ∷ port) (ground (arith, bare.no_right)) in
    let ends : (length (b'[' ∷ host) + 1 == length (b'[' ∷ (host ++ (b']' ∷ [])))) ≡ true =
      (==_iff _ _).1 (omega (arith, length-append host (b']' ∷ []))) in
    let left = has_byte-append b'[' host (b']' ∷ b':' ∷ port) in
    let passes : (has_byte b'[' (host ++ (b']' ∷ b':' ∷ port)) || has_byte b']' (b':' ∷ port))
        ≡ false =
      ground (arith, left, bare.no_left, bare_port.no_left, bare_port.no_right) in
    rw (bracketed, cut, ends, passes) refl

split-bracketed :
    (host port : Bytes)
    → IsBare host
    → IsBare port
    → has_byte b':' port ≡ false
    → net_split_host_port (b'[' ∷ (host ++ (b']' ∷ b':' ∷ port))) ≡ some (host, port)
unfolding net_split_host_port
split-bracketed host port bare bare_port no_colon =
    let front = b'[' ∷ (host ++ (b']' ∷ [])) in
    let cut : cut_last b':' (b'[' ∷ (host ++ (b']' ∷ b':' ∷ port))) ≡ some (front, port) =
      rw (append_assoc host (b']' ∷ []) (b':' ∷ port)) at
        (cut_last-append b':' front port no_colon) in
    rw (net_split_host_port, cut) (bracketed-host host port bare bare_port)

split-unbracketed :
    (host port : Bytes)
    → IsBare host
    → IsBare port
    → has_byte b':' port ≡ false
    → has_byte b':' host ≡ false
    → net_split_host_port (host ++ (b':' ∷ port)) ≡ some (host, port)
unfolding net_split_host_port has_byte
split-unbracketed [] port bare bare_port no_colon plain =
    rw (net_split_host_port, cut_last-append b':' [] port no_colon)
      (unbracketed-host [] port bare bare_port plain)
split-unbracketed (c ∷ host) port bare bare_port no_colon plain =
    let first : (c == b'[') ≡ false = ground (arith, bare.no_left) in
    let address = c ∷ (host ++ (b':' ∷ port)) in
    rw (net_split_host_port, cut_last-append b':' (c ∷ host) port no_colon)
      (ap
          (λ b.
            if b then bracketed address (c ∷ host) port else unbracketed address (c ∷ host) port)
          first
        ∙ unbracketed-host (c ∷ host) port bare bare_port plain)

pub net_split_host_port-join :
    (host : Bytes) (port : ℕ)
    → IsBare host
    → net_split_host_port (net_join_host_port host port) ≡ some (host, itoa port)
unfolding net_join_host_port
net_split_host_port-join host port bare =
    let bare_port : IsBare (itoa port) = record {
      no_left = has_byte-itoa b'[' port (omega arith);
      no_right = has_byte-itoa b']' port (omega arith);
    } in
    let no_colon = has_byte-itoa b':' port (omega arith) in
    elim (Bool-cases (has_byte b':' host)) [
      | inl colon ↦
          rw (net_join_host_port, colon) (split-bracketed host (itoa port) bare bare_port no_colon)
      | inr plain ↦
          rw (net_join_host_port, plain)
            (split-unbracketed host (itoa port) bare bare_port no_colon plain)
    ]
