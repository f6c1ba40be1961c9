-- ===== src/Probe/Command.antt =====
-- cmd/probe/main.go: the flags and what `main` does with them, on ASCII text. The package `flag`, which
-- fills the record of the flags, is not modelled; the lines that `main` writes are values.
pub mod Ports
pub mod Printed
pub mod Ends
mod Tests
use netsee.Prelude.{
  Bool, List, Option, [], false, if◌then◌else◌, ltb, none, some, ℕ, ◌*◌, ◌++◌, ◌||◌, ◌∷◌,
}
use netsee.Prelude.Int.{leb_ℤ, ltb_ℤ, pos, pos_part, ℤ}
use netsee.Prelude.Text.{Bytes, is_empty, utf8}
use netsee.Prelude.Words.{split, strconv_atoi, trim_space}
use netsee.Probe.Lifecycle.{Listener, Sockets, Started, refused, running, shutdown, start}
use netsee.Probe.Server.{Bound, Config, apply_defaults, nanos_per_second, started}
use netsee.Proto.Types.{Info}

pub record Flags : Type 0 where
  pub show_version : Bool
  pub extra : Bytes
  pub config : Config

-- The flags of a command line without any.
abbrev pub default_flags : Flags
default_flags = record {
  show_version = false;
  extra = [];
  config = record {
    bind = utf8 "0.0.0.0";
    http_port = 8080;
    tls_port = 8443;
    udp_port = 8444;
    nat_port = 8445;
    extra_ports = [];
    second_ip = [];
    ttl = pos (5 * 60 * nanos_per_second);
    max_sessions = pos 10000;
    max_udp = pos 2048;
    max_udp_pmtu = pos 9000;
    read_timeout = pos (10 * nanos_per_second);
  };
}

-- The ports that `-extra-ports` lists, or the piece of it that is refused.
pub data ExtraPorts : Type 0 where
  read_ports : List ℕ → ExtraPorts
  bad_port : Bytes → ExtraPorts

-- `n <= 0 || n > 65535`
in_range : ℤ → Option ℕ
in_range n = if leb_ℤ n (pos 0) || ltb_ℤ (pos 65535) n then none else some (pos_part n)

port_of : Bytes → Option ℕ
port_of p = elim (strconv_atoi (trim_space p)) [ none ↦ none | some n ↦ in_range n ]

-- The loop over the pieces, onto the ports that are there.
port_loop : List Bytes → List ℕ → ExtraPorts
port_loop [] ports = read_ports ports
port_loop (p ∷ pieces) ports = elim (port_of p) [
  | none ↦ bad_port p
  | some n ↦ port_loop pieces (ports ++ (n ∷ []))
]

pub extra_ports_of : Bytes → ExtraPorts
extra_ports_of extra = if is_empty extra then read_ports [] else port_loop (split b',' extra) []

-- A line of the log.
pub data LogLine : Type 0 where
  listening : Bytes → Info → Bytes → LogLine
  low_ports : LogLine
  shutting_down : LogLine

-- How `main` ends: `log.Fatalf` on a port or on a start, or a shutdown behind the signal.
pub data ProbeEnd : Type 0 where
  version_shown : ProbeEnd
  fatal_port : Bytes → ProbeEnd
  fatal_start : Listener → Sockets → ProbeEnd
  stopped : List LogLine → Sockets → ProbeEnd

has_low_port : Info → Bool
has_low_port i =
    ltb i.http_port 1024 || ltb i.tls_port 1024 || ltb i.udp_port 1024 || ltb i.nat_port 1024

-- From `srv.Start` on; the ports that the sockets report are a parameter, and a signal comes.
serve : Bound → Config → Started → ProbeEnd
serve b cfg (refused ln k) = fatal_start ln k
serve b cfg (running k) =
    let info = (started cfg b).info in
    stopped
      (listening cfg.bind info cfg.second_ip
        ∷ ((if has_low_port info then low_ports ∷ [] else []) ++ (shutting_down ∷ [])))
      (shutdown k)

-- `main` with the configuration that `-extra-ports` completes.
run_probe : (List Listener → Listener → Bool) → Bound → Config → ProbeEnd
unfolding serve
run_probe can_bind b cfg = serve b cfg (start can_bind (apply_defaults cfg))

pub probe_main : (List Listener → Listener → Bool) → Bound → Flags → ProbeEnd
unfolding run_probe
probe_main can_bind b f = if f.show_version then version_shown else elim (extra_ports_of f.extra) [
  | bad_port p ↦ fatal_port p
  | read_ports ports ↦
      run_probe can_bind b (record f.config { extra_ports = f.config.extra_ports ++ ports })
]
