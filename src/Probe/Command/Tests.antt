-- ===== src/Probe/Command/Tests.antt =====
-- Lists of ports, and runs of `main`.
use netsee.Prelude.{List, [], arith, refl, true, ℕ, ◌∷◌, ◌≡◌}
use netsee.Prelude.Text.{join, utf8}
use netsee.Prelude.Words.{
  as_int, decimal, decimal_from, digits_of, is_space, itoa, split, split_from, strconv_atoi,
  trim_left, trim_right, trim_space,
}
use netsee.Probe.Command.{
  Flags, bad_port, default_flags, extra_ports_of, in_range, port_loop, port_of, probe_main,
  read_ports,
}
use netsee.Probe.Command.Ends.{EndsClean, probe_main-EndsClean}
use netsee.Probe.Command.Printed.{extra_ports_of-port_list, itoa_all, port_list}
use netsee.Probe.Server.{Bound, apply_defaults}

abbrev two_ports : List ℕ
two_ports = 80 ∷ 65535 ∷ []

port_list_two : port_list two_ports ≡ utf8 "80,65535"
unfolding port_list itoa_all join utf8 itoa digits_of
port_list_two = refl

extra_ports_of-port_list_example : extra_ports_of (port_list two_ports) ≡ read_ports two_ports
extra_ports_of-port_list_example =
    extra_ports_of-port_list two_ports
      ((omega arith, omega arith), ((omega arith, omega arith), tt))

-- White space and a sign are accepted, as `strconv.Atoi` does.
extra_ports_spaced : extra_ports_of (utf8 " 80, +443 ") ≡ read_ports (80 ∷ 443 ∷ [])
unfolding extra_ports_of port_loop port_of in_range split split_from strconv_atoi decimal
    decimal_from as_int trim_space trim_left trim_right is_space utf8
extra_ports_spaced = refl

-- Port 0 is refused, with the text as it stands between the commas.
extra_ports_zero : extra_ports_of (utf8 "80, 0") ≡ bad_port (utf8 " 0")
unfolding extra_ports_of port_loop port_of in_range split split_from strconv_atoi decimal
    decimal_from as_int trim_space trim_left trim_right is_space utf8
extra_ports_zero = refl

abbrev sockets : Bound
sockets = record { http = 8080; tls = 8443; udp = 8444; nat = 8445; extra = 9000 ∷ [] }

abbrev flags : Flags
flags = record default_flags { extra = utf8 "9000" }

probe_main-EndsClean_example :
    EndsClean (λ opened ln. true) flags (probe_main (λ opened ln. true) sockets flags)
probe_main-EndsClean_example = probe_main-EndsClean (λ opened ln. true) sockets flags

-- The defaults of the flags are those of `applyDefaults`.
apply_defaults_flags : apply_defaults default_flags.config ≡ default_flags.config
unfolding apply_defaults utf8
apply_defaults_flags = refl
