-- ===== src/Probe/Command/Printed.antt =====
-- Lists of ports on a command line.
use netsee.Prelude.{
  All, List, [], ap, append-nil, append_assoc, arith, false, refl, some, sym, ℕ, ◌++◌, ◌||◌, ◌∙◌,
  ◌∷◌, ◌≡◌, ◌≤◌,
}
use netsee.Prelude.Int.{leb_ℤ, ltb_ℤ, pos}
use netsee.Prelude.Text.{Bytes, is_empty, join, utf8}
use netsee.Prelude.Words.{is_space, itoa, trim_left, trim_right, trim_space}
use netsee.Prelude.Words.Decimal.{IsDigit, digits_of-IsDigit, itoa_cons, strconv_atoi-itoa}
use netsee.Prelude.Words.Split.{Without, split-join}
use netsee.Probe.Command.{extra_ports_of, in_range, port_loop, port_of, read_ports}

unfoldable pub itoa_all : List ℕ → List Bytes
itoa_all [] = []
itoa_all (n ∷ ns) = itoa n ∷ itoa_all ns

-- The ports as a user writes them.
unfoldable pub port_list : List ℕ → Bytes
unfolding itoa_all
port_list ports = join (utf8 ",") (itoa_all ports)

abbrev pub IsPort : ℕ → Type 0
IsPort n = (1 ≤ n) × (n ≤ 65535)

digits-Without : (s : Bytes) → All IsDigit s → Without b',' s
digits-Without [] h = tt
digits-Without (c ∷ s) h = let digit = h.0 in (ground arith, digits-Without s h.1)

trim_right-digits : (s : Bytes) → All IsDigit s → trim_right s ≡ s
unfolding trim_right is_space
trim_right-digits [] h = refl
trim_right-digits (c ∷ s) h =
    let digit = h.0 in
    let inside : is_space c ≡ false = ground arith in
    rw (trim_right, inside) (ap (λ t. c ∷ t) (trim_right-digits s h.1))

trim_space-digits : (s : Bytes) → All IsDigit s → trim_space s ≡ s
unfolding trim_space trim_left is_space trim_right
trim_space-digits [] h = refl
trim_space-digits (c ∷ s) h =
    let digit = h.0 in
    let inside : is_space c ≡ false = ground arith in
    rw (trim_space, trim_left, inside) (trim_right-digits (c ∷ s) h)

port_of-itoa : (n : ℕ) → IsPort n → port_of (itoa n) ≡ some n
unfolding port_of in_range itoa
port_of-itoa n (low, high) =
    let inside : (leb_ℤ (pos n) (pos 0) || ltb_ℤ (pos 65535) (pos n)) ≡ false = ground arith in
    rw
      (
        port_of,
        trim_space-digits (itoa n) (digits_of-IsDigit 20 n),
        strconv_atoi-itoa n (omega arith),
        in_range,
        inside,
      )
      refl

port_loop-itoa_all :
    (ports before : List ℕ)
    → All IsPort ports
    → port_loop (itoa_all ports) before ≡ read_ports (before ++ ports)
unfolding port_loop itoa_all
port_loop-itoa_all [] before h = ap read_ports (sym (append-nil before))
port_loop-itoa_all (n ∷ ports) before h =
    rw (port_loop, port_of-itoa n h.0)
      (port_loop-itoa_all ports (before ++ (n ∷ [])) h.1
        ∙ ap read_ports (append_assoc before (n ∷ []) ports))

itoa_all-Without : (ports : List ℕ) → All (Without b',') (itoa_all ports)
unfolding itoa_all itoa
itoa_all-Without [] = tt
itoa_all-Without (n ∷ ports) =
    (digits-Without (itoa n) (digits_of-IsDigit 20 n), itoa_all-Without ports)

join-full :
    (c : ℕ) (t : Bytes) (texts : List Bytes) → is_empty (join (utf8 ",") ((c ∷ t) ∷ texts)) ≡ false
unfolding join
join-full c t [] = refl
join-full c t (s ∷ texts) = refl

port_list-full : (n : ℕ) (ports : List ℕ) → is_empty (port_list (n ∷ ports)) ≡ false
unfolding port_list itoa_all
port_list-full n ports =
    let (c, t, shape) = itoa_cons n in rw shape (join-full c t (itoa_all ports))

-- Ports from 1 to 65535 in decimal, joined by commas, are read as the same ports in the same order.
pub extra_ports_of-port_list :
    (ports : List ℕ) → All IsPort ports → extra_ports_of (port_list ports) ≡ read_ports ports
unfolding extra_ports_of port_list join utf8 itoa_all
extra_ports_of-port_list [] h = refl
extra_ports_of-port_list (n ∷ ports) h =
    rw (extra_ports_of, port_list-full n ports)
      (ap (λ pieces. port_loop pieces [])
          (split-join b',' (itoa n) (itoa_all ports) (itoa_all-Without (n ∷ ports)))
        ∙ port_loop-itoa_all (n ∷ ports) [] h)
