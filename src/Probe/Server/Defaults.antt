-- ===== src/Probe/Server/Defaults.antt =====
-- `applyDefaults`.
use netsee.Prelude.{arith, false, ◌≡◌}
use netsee.Prelude.Text.{is_empty, utf8}
use netsee.Probe.Server.{Config, apply_defaults, is_zero}

-- Nothing is left at its zero value.
pub record IsComplete (cfg : Config) : Type 0 where
  pub has_bind : is_empty cfg.bind ≡ false
  pub has_ttl : is_zero cfg.ttl ≡ false
  pub has_sessions : is_zero cfg.max_sessions ≡ false
  pub has_udp : is_zero cfg.max_udp ≡ false
  pub has_pmtu : is_zero cfg.max_udp_pmtu ≡ false
  pub has_timeout : is_zero cfg.read_timeout ≡ false

apply_defaults-IsComplete : (cfg : Config) → IsComplete (apply_defaults cfg)
unfolding apply_defaults utf8
apply_defaults-IsComplete cfg = ground arith

apply_defaults_complete : (cfg : Config) → IsComplete cfg → apply_defaults cfg ≡ cfg
unfolding apply_defaults
apply_defaults_complete cfg h =
    rw (h.has_bind, h.has_ttl, h.has_sessions, h.has_udp, h.has_pmtu, h.has_timeout)

-- `applyDefaults` leaves no limit at zero, and has no effect the second time.
apply_defaults_idem :
    (cfg : Config)
    → IsComplete (apply_defaults cfg) × (apply_defaults (apply_defaults cfg) ≡ apply_defaults cfg)
apply_defaults_idem cfg = (
  apply_defaults-IsComplete cfg,
  apply_defaults_complete (apply_defaults cfg) (apply_defaults-IsComplete cfg),
)
