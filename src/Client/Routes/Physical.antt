-- ===== src/Client/Routes/Physical.antt =====
-- Which lines of the routing table are candidates of `parsePhysicalV4`.
use netsee.Client.Attribution.{is_tun_interface}
use netsee.Client.Routes.{Route, field, fields, hex_le_to_ipv4, is_up, parse_hex, physical_v4}
use netsee.Prelude.{
  Bool-cases, Option, [], arith, false, get_or, inl, inr, length, none, refl, some, true, ℕ, ◌%◌,
  ◌++◌, ◌==◌, ◌↔◌, ◌∷◌, ◌≡◌, ◌≤◌,
}
use netsee.Prelude.Int.{ℤ}
use netsee.Prelude.Text.{Bytes, bytes_beq_iff, has_prefix, utf8}

-- The line is a default route that is up and not a TUN's, and `r` holds its parts.
pub record IsPhysical (atoi : Bytes → ℤ) (line : Bytes) (r : Route) : Type 0 where
  pub flags : ℕ
  pub enough : 11 ≤ length (fields line)
  pub to_default : get_or (fields line) 1 [] ≡ utf8 "00000000"
  pub read_flags : parse_hex (get_or (fields line) 3 []) ≡ some flags
  pub up : flags % 2 ≡ 1
  pub no_tun :
      (has_prefix r.iface (utf8 "tun") ≡ false)
      × (has_prefix r.iface (utf8 "utun") ≡ false)
      × (has_prefix r.iface (utf8 "wg") ≡ false)
  pub named : r.iface ≡ get_or (fields line) 0 []
  pub via : r.gw ≡ hex_le_to_ipv4 (get_or (fields line) 2 [])
  pub at_metric : r.metric ≡ atoi (get_or (fields line) 6 [])

has_prefix-append : (s p q : Bytes) → has_prefix s p ≡ false → has_prefix s (p ++ q) ≡ false
unfolding has_prefix
has_prefix-append s [] q h = cc
has_prefix-append [] (c ∷ p) q h = refl
has_prefix-append (d ∷ s) (c ∷ p) q h = elim (Bool-cases (c == d)) [
  | inl same ↦ rw same (has_prefix-append s p q (rw same at h))
  | inr other ↦ rw other refl
]

tun0 : utf8 "tun0" ≡ utf8 "tun" ++ utf8 "0"
unfolding utf8
tun0 = refl

no_prefix_no_tun :
    (name : Bytes)
    → has_prefix name (utf8 "tun") ≡ false
    → has_prefix name (utf8 "utun") ≡ false
    → has_prefix name (utf8 "wg") ≡ false
    → is_tun_interface name ≡ false
unfolding is_tun_interface
no_prefix_no_tun name t u w = rw (t, u, w, tun0) (has_prefix-append name (utf8 "tun") (utf8 "0") t)

no_tun_no_prefix :
    (name : Bytes)
    → is_tun_interface name ≡ false
    → (has_prefix name (utf8 "tun") ≡ false)
      × (has_prefix name (utf8 "utun") ≡ false)
      × (has_prefix name (utf8 "wg") ≡ false)
unfolding is_tun_interface
no_tun_no_prefix name h = ground arith

is_up-some :
    (read : Option ℕ) → is_up read ≡ true → (flags : ℕ) × (read ≡ some flags) × (flags % 2 ≡ 1)
unfolding is_up
is_up-some none h = cc
is_up-some (some flags) h = (flags, refl, ground arith)

module _ (atoi : Bytes → ℤ) (line : Bytes) (r : Route) where
  physical_v4-IsPhysical : physical_v4 atoi line ≡ some r → IsPhysical atoi line r
  unfolding physical_v4 field
  physical_v4-IsPhysical h =
      let (flags, read, up) =
        is_up-some (parse_hex (get_or (fields line) 3 [])) (ground (arith, h)) in
      record {
        flags = flags;
        enough = ground (arith, h);
        to_default = (bytes_beq_iff _ (utf8 "00000000")).0 (ground (arith, h));
        read_flags = read;
        up = up;
        no_tun = no_tun_no_prefix r.iface (ground (arith, h));
        named = ground (arith, h);
        via = ground (arith, h);
        at_metric = ground (arith, h);
      }

  IsPhysical-physical_v4 : IsPhysical atoi line r → physical_v4 atoi line ≡ some r
  unfolding physical_v4 field is_up
  IsPhysical-physical_v4 p =
      let to_default =
        (bytes_beq_iff (get_or (fields line) 1 []) (utf8 "00000000")).1 p.to_default in
      let (tun, utun, wg) = p.no_tun in
      let no_tun = no_prefix_no_tun r.iface tun utun wg in
      ground (arith, p.enough, to_default, p.read_flags, p.up, no_tun, p.named, p.via, p.at_metric)

  pub physical_v4_iff : (physical_v4 atoi line ≡ some r) ↔ IsPhysical atoi line r
  physical_v4_iff = (physical_v4-IsPhysical, IsPhysical-physical_v4)
