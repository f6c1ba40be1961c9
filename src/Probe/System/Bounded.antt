-- ===== src/Probe/System/Bounded.antt =====
-- Runs of the probe as runs of its registry.
use netsee.Prelude.{ℕ, ◌*◌, ◌<◌, ◌≡◌, ◌≤◌}
use netsee.Prelude.Int.{pos}
use netsee.Probe.Fingerprint.{Digests}
use netsee.Probe.Handlers.Records.{handle_extra_conn-Follows}
use netsee.Probe.Mux.Changes.{serve_request-Follows}
use netsee.Probe.Server.{Bound, Config, Server, apply_defaults, started}
use netsee.Probe.Server.Registry.{
  Follows, Follows-HoldsValid, Follows-bounded, Follows-refl, Follows-trans, HoldsValid,
  Step-Follows, started-HoldsValid,
}
use netsee.Probe.System.{
  Run, Serves, extra_conn, gc_tick, http_request, idle, then_serves, tick, tls_conn, udp_arrival,
}
use netsee.Probe.Tls.Fragments.{handle_tls_conn-Follows}
use netsee.Probe.Udp.{Decode}
use netsee.Probe.Udp.Loop.{handle_udp_arrival-Follows}
use netsee.Proto.Store.{len}
use netsee.Proto.Store.Runs.{gc_step, total_obs}

module _ (decode : Decode) (d : Digests) where
  Serves-Follows : {s t : Server} → Serves decode d s t → Follows s t
  unfolding gc_tick
  Serves-Follows (http_request e peer q s) = serve_request-Follows e peer q s
  Serves-Follows (extra_conn e peer r dst_port s) =
      handle_extra_conn-Follows decode e peer r dst_port s
  Serves-Follows (udp_arrival e ln payload src ttl s) =
      handle_udp_arrival-Follows decode e ln payload src ttl s
  Serves-Follows (tls_conn e peer reads s) = handle_tls_conn-Follows d e peer reads s
  Serves-Follows (tick now s) = Step-Follows s (gc_step now s.store)

  -- Whatever arrives, in any interleaving, changes the registry alone, and by steps of the
  -- registry: the configuration and the answer to `/api/info` stay as they were.
  pub Run-Follows : {s t : Server} → Run decode d s t → Follows s t
  Run-Follows {s} idle = Follows-refl s
  Run-Follows (then_serves r step) = Follows-trans (Run-Follows r) (Serves-Follows step)

  -- If the session cap, its default filled in, is a positive `n`, then whatever arrives at a started
  -- probe, in whatever interleaving, the registry satisfies its invariant and never holds more than
  -- `n` sessions or 4096 * n observations.
  pub Run-bounded :
      (cfg : Config) (b : Bound) (n : ℕ) (t : Server)
      → (apply_defaults cfg).max_sessions ≡ pos n
      → 0 < n
      → Run decode d (started cfg b) t
      → HoldsValid t × (len t.store ≤ n) × (total_obs t.store.sessions ≤ 4096 * n)
  Run-bounded cfg b n t full positive r =
      let f = Run-Follows r in
      let (few, few_obs) = Follows-bounded cfg b n t full positive f in
      (Follows-HoldsValid f (started-HoldsValid cfg b), few, few_obs)
