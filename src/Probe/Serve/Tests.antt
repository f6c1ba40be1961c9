-- ===== src/Probe/Serve/Tests.antt =====
-- A listener that fails once and is closed, and a sweep.
use netsee.Prelude.{All, List, [], arith, false, refl, suc, true, ℕ, ◌*◌, ◌+◌, ◌↔◌, ◌∷◌, ◌≡◌, ◌≤◌}
use netsee.Prelude.Int.{pos}
use netsee.Prelude.Text.{utf8}
use netsee.Probe.Serve.{
  Accepted, Loops, accept_extra, accept_failed, connection, done_closed, extra_launched,
  gc_interval, gc_loop, handlers, listener_closed, serve_tls, ticked, wait_added, wait_done,
}
use netsee.Probe.Serve.Sweep.{
  Swept, Swept-IsRecent, launch_probe, record_between, sweep_tick, wait_until,
}
use netsee.Probe.Serve.Waits.{HasEnded, wait_done-HasEnded}
use netsee.Probe.Server.{Bound, Server, apply_defaults, blank_obs, record_obs, started}
use netsee.Probe.Server.Samples.{config_of, env_at, server_of, session_id}
use netsee.Probe.Udp.{read_failed}
use netsee.Proto.Types.{Obs}

abbrev events : List (Accepted ℕ)
events =
    connection 1
    ∷ accept_failed (utf8 "too many open files")
    ∷ connection 2
    ∷ listener_closed
    ∷ connection 3
    ∷ []

abbrev loops : Loops ℕ
loops = record {
  http_returned = true;
  tls = events;
  udp = read_failed false ∷ read_failed true ∷ [];
  nat = read_failed true ∷ [];
  extra = (9000, listener_closed ∷ []) ∷ [];
  gc = ticked 5 ∷ done_closed ∷ [];
}

two_handlers : handlers loops ≡ 2
unfolding handlers extra_launched serve_tls accept_extra
two_handlers = refl

wait_done-HasEnded_example :
    (wait_done loops (server_of []) 2 ≤ wait_added loops)
    × ((wait_done loops (server_of []) 2 ≡ wait_added loops) ↔ HasEnded loops 2)
wait_done-HasEnded_example = wait_done-HasEnded loops (server_of []) 2 (omega (arith, two_handlers))

-- The first two are handled, and the error is logged.
serve_tls_two : (serve_tls events).launched ≡ 1 ∷ 2 ∷ []
unfolding serve_tls
serve_tls_two = refl

-- Half of the five minutes of the default.
gc_interval_default : gc_interval (apply_defaults (config_of [])).ttl ≡ 150_000_000_000
unfolding gc_interval apply_defaults
gc_interval_default = refl

abbrev sockets : Bound
sockets = record { http = 8080; tls = 8443; udp = 8444; nat = 8445; extra = 9000 ∷ [] }

abbrev observed : Obs
observed = blank_obs (env_at 1) (utf8 "udp") session_id 8444

-- An observation after a nanosecond, and the first tick.
abbrev swept_once : Server
swept_once =
    (gc_loop (ticked (1 * gc_interval (apply_defaults (config_of [])).ttl) ∷ [])
      (record_obs (env_at 1) session_id observed (started (config_of []) sockets))).0

swept :
    Swept (config_of []) sockets 1 (1 * gc_interval (apply_defaults (config_of [])).ttl) swept_once
unfolding gc_interval apply_defaults
swept = sweep_tick (
    record_between (env_at 1) session_id observed
      (wait_until 1 launch_probe (omega arith) (omega arith)) refl)

ttl_default : (apply_defaults (config_of [])).ttl ≡ pos (suc 299_999_999_999)
unfolding apply_defaults
ttl_default = refl

Swept-IsRecent_example :
    All
      (λ e.
        1 * gc_interval (apply_defaults (config_of [])).ttl
        ≤ e.1.created + suc 299_999_999_999 + gc_interval (apply_defaults (config_of [])).ttl)
      swept_once.store.sessions
Swept-IsRecent_example = Swept-IsRecent (config_of []) sockets 299_999_999_999 ttl_default swept
