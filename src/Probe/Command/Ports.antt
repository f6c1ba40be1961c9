-- ===== src/Probe/Command/Ports.antt =====
-- Which texts `-extra-ports` takes.
use mathlib.Core.Path.{subst}
use netsee.Prelude.{
  Bool-cases, List, Option-cases, [], ap, append-nil, append_assoc, arith, false, inl, inr, none,
  refl, some, ℕ, ◌++◌, ◌||◌, ◌∙◌, ◌∷◌, ◌≡◌, ◌≤◌,
}
use netsee.Prelude.Int.{leb_ℤ, ltb_ℤ, negsuc, pos, ℤ}
use netsee.Prelude.Text.{Bytes}
use netsee.Prelude.Words.{split, strconv_atoi, trim_space}
use netsee.Probe.Command.{
  ExtraPorts, bad_port, extra_ports_of, in_range, port_loop, port_of, read_ports,
}

-- The piece is the decimal of a port, with white space around it.
abbrev pub Names : Bytes → ℕ → Type 0
Names p n = (strconv_atoi (trim_space p) ≡ some (pos n)) × (1 ≤ n) × (n ≤ 65535)

-- Each piece names the port at its place.
abbrev pub NameAll : List Bytes → List ℕ → Type 0
NameAll [] [] = Unit
NameAll (p ∷ ps) (n ∷ ns) = Names p n × NameAll ps ns
NameAll _ _ = ⊥

-- The first piece that names no port, behind pieces that do.
pub record IsFirstBad (pieces : List Bytes) (bad : Bytes) : Type 0 where
  pub before : List Bytes
  pub after : List Bytes
  pub ports : List ℕ
  pub splits : pieces ≡ before ++ (bad ∷ after)
  pub named : NameAll before ports
  pub unnamed : (n : ℕ) → ¬ Names bad n

abbrev pub ReadsPorts : List Bytes → ExtraPorts → Type 0
ReadsPorts pieces (read_ports ports) = NameAll pieces ports
ReadsPorts pieces (bad_port bad) = IsFirstBad pieces bad

-- The pieces between the commas; an empty text has none.
abbrev pub pieces_of : Bytes → List Bytes
pieces_of [] = []
pieces_of (c ∷ s) = split b',' (c ∷ s)

in_range-some : (z : ℤ) (n : ℕ) → in_range z ≡ some n → (z ≡ pos n) × (1 ≤ n) × (n ≤ 65535)
unfolding in_range
in_range-some (pos m) n h = elim (Bool-cases (leb_ℤ (pos m) (pos 0) || ltb_ℤ (pos 65535) (pos m))) [
  | inl out ↦ ground (arith, rw out at h)
  | inr inside ↦ let kept : some m ≡ some n = rw inside at h in ground (arith, inside, kept)
]
in_range-some (negsuc m) n h = ground arith

in_range-none : (n : ℕ) → in_range (pos n) ≡ none → ¬ ((1 ≤ n) × (n ≤ 65535))
unfolding in_range
in_range-none n h (low, high) =
    let inside : (leb_ℤ (pos n) (pos 0) || ltb_ℤ (pos 65535) (pos n)) ≡ false = ground arith in
    let kept : some n ≡ none = rw inside at h in cc

port_of-some : (p : Bytes) (n : ℕ) → port_of p ≡ some n → Names p n
unfolding port_of
port_of-some p n h = elim (Option-cases (strconv_atoi (trim_space p))) [
  | inl none_read ↦ let no : none ≡ some n = rw (port_of, none_read) at h in cc
  | inr (z, read) ↦
      let (is_n, low, high) = in_range-some z n (rw (port_of, read) at h) in
      (read ∙ ap some is_n, low, high)
]

port_of-none : (p : Bytes) (n : ℕ) → port_of p ≡ none → ¬ Names p n
unfolding port_of
port_of-none p n h (read, low, high) = in_range-none n (rw (port_of, read) at h) (low, high)

NameAll-concat :
    (ps : List Bytes) (ns : List ℕ) (p : Bytes) (n : ℕ)
    → NameAll ps ns
    → Names p n
    → NameAll (ps ++ (p ∷ [])) (ns ++ (n ∷ []))
NameAll-concat [] [] p n all_named named = (named, tt)
NameAll-concat [] (m ∷ ns) p n all_named named = elim all_named [ ]
NameAll-concat (q ∷ ps) [] p n all_named named = elim all_named [ ]
NameAll-concat (q ∷ ps) (m ∷ ns) p n (first, others) named =
    (first, NameAll-concat ps ns p n others named)

port_loop-ReadsPorts :
    (pieces before : List Bytes) (ports : List ℕ)
    → NameAll before ports
    → ReadsPorts (before ++ pieces) (port_loop pieces ports)
unfolding port_loop
port_loop-ReadsPorts [] before ports named = rw append-nil named
port_loop-ReadsPorts (p ∷ pieces) before ports named = elim (Option-cases (port_of p)) [
  | inl bad ↦
      rw (ReadsPorts, port_loop, bad)
        (record {
          before = before;
          after = pieces;
          ports = ports;
          splits = refl;
          named = named;
          unnamed = λ n. port_of-none p n bad;
        })
  | inr (n, good) ↦
      let next = NameAll-concat before ports p n named (port_of-some p n good) in
      rw (port_loop, good)
        (subst (λ ps. ReadsPorts ps (port_loop pieces (ports ++ (n ∷ []))))
          (append_assoc before (p ∷ []) pieces)
          (port_loop-ReadsPorts pieces (before ++ (p ∷ [])) (ports ++ (n ∷ [])) next))
]

-- The text of `-extra-ports` is read piece by piece: either each piece between the commas is the
-- decimal of a port from 1 to 65535, with white space around it, and the ports come in the order of
-- the pieces, or the first piece that is no such decimal is refused. An empty text gives no port.
pub extra_ports_of-ReadsPorts :
    (extra : Bytes) → ReadsPorts (pieces_of extra) (extra_ports_of extra)
unfolding extra_ports_of
extra_ports_of-ReadsPorts [] = tt
extra_ports_of-ReadsPorts (c ∷ s) = port_loop-ReadsPorts (split b',' (c ∷ s)) [] [] tt
