-- ===== src/Probe/Command/Ends.antt =====
-- The four ways in which `main` of the probe ends.
use netsee.Prelude.{Bool, List, [], false, if◌then◌else◌, refl, true, ℕ, ◌++◌, ◌∷◌, ◌≡◌}
use netsee.Probe.Command.{
  ExtraPorts, Flags, ProbeEnd, bad_port, extra_ports_of, fatal_port, fatal_start, probe_main,
  read_ports, run_probe, serve, stopped, version_shown,
}
use netsee.Probe.Command.Ports.{
  IsFirstBad, NameAll, ReadsPorts, extra_ports_of-ReadsPorts, pieces_of,
}
use netsee.Probe.Lifecycle.{
  Listener, Started, extra_listeners, http_ln, nat_ln, refused, running, shutdown, start, tls_ln,
  udp_ln,
}
use netsee.Probe.Lifecycle.Binding.{
  IsRefused, IsShutDown, StartsAllOrNone, all_bound, shutdown-start, start-StartsAllOrNone,
}
use netsee.Probe.Server.{Bound, Config, apply_defaults}

-- The listeners of a configuration with these ports behind its own.
abbrev pub listeners : Flags → List ℕ → List Listener
listeners f ports =
    http_ln ∷ tls_ln ∷ udp_ln ∷ nat_ln ∷ extra_listeners (f.config.extra_ports ++ ports)

abbrev pub EndsClean : (List Listener → Listener → Bool) → Flags → ProbeEnd → Type 0
EndsClean can_bind f version_shown = f.show_version ≡ true
EndsClean can_bind f (fatal_port p) = (f.show_version ≡ false) × IsFirstBad (pieces_of f.extra) p
EndsClean can_bind f (fatal_start ln k) =
    (f.show_version ≡ false)
    × ((ports : List ℕ) × NameAll (pieces_of f.extra) ports
        × IsRefused can_bind (listeners f ports) ln k)
EndsClean can_bind f (stopped log k) =
    (f.show_version ≡ false)
    × ((ports : List ℕ) × NameAll (pieces_of f.extra) ports
        × (all_bound can_bind [] (listeners f ports) ≡ true)
        × IsShutDown (listeners f ports) k)

-- Behind the start, whose result is known.
serve-EndsClean :
    (can_bind : List Listener → Listener → Bool) (b : Bound) (f : Flags) (cfg : Config)
    (ports : List ℕ)
    → cfg.extra_ports ≡ f.config.extra_ports ++ ports
    → f.show_version ≡ false
    → NameAll (pieces_of f.extra) ports
    → (r : Started) → start can_bind (apply_defaults cfg) ≡ r
    → EndsClean can_bind f (serve b cfg r)
unfolding serve apply_defaults
serve-EndsClean can_bind b f cfg ports from_both runs named (refused ln k) e =
    let fate : IsRefused can_bind (listeners f ports) ln k =
      rw (e, from_both) at (start-StartsAllOrNone can_bind (apply_defaults cfg)) in
    (runs, (ports, named, fate))
serve-EndsClean can_bind b f cfg ports from_both runs named (running k) e =
    let fate : StartsAllOrNone can_bind (listeners f ports) (running k) =
      rw (e, from_both) at (start-StartsAllOrNone can_bind (apply_defaults cfg)) in
    let down : IsShutDown (listeners f ports) (shutdown k) =
      rw from_both at (shutdown-start can_bind (apply_defaults cfg) k e) in
    (runs, (ports, named, fate.0, down))

-- `main` of the probe shows the version where it is asked for. Otherwise it stops at the first piece
-- of `-extra-ports` that is no port from 1 to 65535, before a socket is bound; or at the first
-- listener that cannot be bound beside those that are open, with those before it closed and none open; or, behind the signal,
-- with every listener of the configuration bound beside those in front of it, and closed once.
pub probe_main-EndsClean :
    (can_bind : List Listener → Listener → Bool) (b : Bound) (f : Flags)
    → EndsClean can_bind f (probe_main can_bind b f)
unfolding probe_main run_probe
probe_main-EndsClean can_bind b f = chosen f.show_version refl
  where
    started_with : List ℕ → Config
    started_with ports = record f.config { extra_ports = f.config.extra_ports ++ ports }

    read :
        f.show_version ≡ false
        → (r : ExtraPorts) → ReadsPorts (pieces_of f.extra) r
        → EndsClean can_bind f (elim r [
          | bad_port p ↦ fatal_port p
          | read_ports ports ↦ run_probe can_bind b (started_with ports)
        ])
    read runs (bad_port p) first = (runs, first)
    read runs (read_ports ports) named =
        serve-EndsClean can_bind b f (started_with ports) ports refl runs named _ refl

    chosen :
        (shown : Bool)
        → f.show_version ≡ shown
        → EndsClean can_bind f (
            if shown then version_shown else elim (extra_ports_of f.extra) [
              | bad_port p ↦ fatal_port p
              | read_ports ports ↦ run_probe can_bind b (started_with ports)
            ])
    chosen true shown = shown
    chosen false runs = read runs (extra_ports_of f.extra) (extra_ports_of-ReadsPorts f.extra)
