-- ===== src/Probe/Server/Registry.antt =====
-- What a handler may change of the shared state: the registry, by its methods.
use netsee.Prelude.{Bool, arith, false, if◌then◌else◌, refl, true, ℕ, ◌*◌, ◌<◌, ◌∙◌, ◌≡◌, ◌≤◌}
use netsee.Prelude.Int.{pos}
use netsee.Prelude.Text.{Bytes}
use netsee.Probe.Server.{
  Bound, Config, Env, Peer, Server, apply_defaults, record_obs, started, with_address, with_peer,
  with_tcp_info,
}
use netsee.Proto.Store.{Store, len}
use netsee.Proto.Store.Bounds.{IsValid, new_store-IsValid}
use netsee.Proto.Store.Runs.{
  Reach, Reach-IsValid, Reach-bounded, Reach-trans, Step, append_step, at_start, next, total_obs,
}
use netsee.Proto.Types.{Obs}

-- `t` differs from `s` in its registry alone, which went through steps of the registry.
pub record Follows (s t : Server) : Type 0 where
  pub cfg_kept : t.cfg ≡ s.cfg
  pub info_kept : t.info ≡ s.info
  pub steps : Reach s.store t.store

pub Follows-refl : (s : Server) → Follows s s
Follows-refl s = record { cfg_kept = refl; info_kept = refl; steps = at_start }

pub Follows-trans : {s t u : Server} → Follows s t → Follows t u → Follows s u
Follows-trans f g = record {
  cfg_kept = g.cfg_kept ∙ f.cfg_kept;
  info_kept = g.info_kept ∙ f.info_kept;
  steps = Reach-trans f.steps g.steps;
}

-- One step of the registry.
pub Step-Follows :
    (s : Server) {store : Store} → Step s.store store → Follows s (record s { store = store })
Step-Follows s step = record { cfg_kept = refl; info_kept = refl; steps = next at_start step }

pub record_obs-Follows :
    (e : Env) (session : Bytes) (o : Obs) (s : Server)
    → o.session ≡ session
    → Follows s (record_obs e session o s)
unfolding record_obs
record_obs-Follows e session o s names = Step-Follows s (append_step e.now session o s.store names)

-- The peer's address and TCP_INFO leave the session of an observation alone.
pub with_peer-session :
    (p : Peer) (o : Obs) (id : Bytes) → o.session ≡ id → (with_peer p o).session ≡ id
unfolding with_peer with_address with_tcp_info
with_peer-session p o id names = ground (arith, names)

pub record_obs-Follows_unless :
    (b : Bool) (e : Env) (session : Bytes) (o : Obs) (s : Server)
    → o.session ≡ session
    → Follows s (if b then s else record_obs e session o s)
record_obs-Follows_unless true e session o s names = Follows-refl s
record_obs-Follows_unless false e session o s names = record_obs-Follows e session o s names

pub record HoldsValid (s : Server) : Type 0 where
  pub registry : IsValid s.store

pub Follows-HoldsValid : {s t : Server} → Follows s t → HoldsValid s → HoldsValid t
Follows-HoldsValid f v = record { registry = Reach-IsValid v.registry f.steps }

pub started-HoldsValid : (cfg : Config) (b : Bound) → HoldsValid (started cfg b)
unfolding started
started-HoldsValid cfg b = record { registry = new_store-IsValid _ _ }

-- What the registry of a started server comes to, under a positive cap.
pub Follows-bounded :
    (cfg : Config) (b : Bound) (n : ℕ) (t : Server)
    → (apply_defaults cfg).max_sessions ≡ pos n
    → 0 < n
    → Follows (started cfg b) t
    → (len t.store ≤ n) × (total_obs t.store.sessions ≤ 4096 * n)
unfolding started
Follows-bounded cfg b n t full positive f =
    Reach-bounded (apply_defaults cfg).ttl n t.store positive (rw full at f.steps)
