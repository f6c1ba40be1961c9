-- ===== src/Probe/Serve/Sweep.antt =====
-- How long a session stays in the registry that `gcLoop` sweep_tick.
use native.Mathlib.Nat.{suc-mul}
use netsee.Prelude.{All, List, [], arith, suc, ℕ, ◌*◌, ◌+◌, ◌∙◌, ◌∷◌, ◌≡◌, ◌≤◌}
use netsee.Prelude.Int.{pos}
use netsee.Prelude.Text.{Bytes}
use netsee.Probe.Handlers.{handle_session}
use netsee.Probe.Serve.{gc_interval, gc_loop, ticked}
use netsee.Probe.Server.{Bound, Config, Env, Server, apply_defaults, record_obs, started}
use netsee.Probe.System.{gc_tick}
use netsee.Proto.Store.{Session, Store, gc, new_store}
use netsee.Proto.Store.Ages.{Created, append-Created, gc-IsRecent, get-Created}
use netsee.Proto.Store.Contents.{append-ttl, gc-ttl, get-ttl}
use netsee.Proto.Types.{Obs}

-- A server after a number of ticks of its ticker, at a time since the launch. The ticker fires on
-- time; between two ticks the handlers record observations and read sessions.
pub data Swept (cfg : Config) (b : Bound) : ℕ → ℕ → Server → Type 0 where
  launch_probe : Swept cfg b 0 0 (started cfg b)
  wait_until :
      {k now : ℕ} {s : Server} (t : ℕ)
      → Swept cfg b k now s
      → now ≤ t
      → t ≤ suc k * gc_interval (apply_defaults cfg).ttl
      → Swept cfg b k t s
  record_between :
      {k now : ℕ} {s : Server} (e : Env) (session : Bytes) (o : Obs)
      → Swept cfg b k now s
      → e.now ≡ now
      → Swept cfg b k now (record_obs e session o s)
  read_between :
      {k now : ℕ} {s : Server} (id : Bytes)
      → Swept cfg b k now s
      → Swept cfg b k now (handle_session now id s).0
  sweep_tick :
      {k now : ℕ} {s : Server}
      → Swept cfg b k now s
      → Swept cfg b
          (suc k)
          (suc k * gc_interval (apply_defaults cfg).ttl)
          (gc_loop (ticked (suc k * gc_interval (apply_defaults cfg).ttl) ∷ []) s).0

-- What holds from one tick to the next.
record IsTimely (ttl k interval now : ℕ) (st : Store) : Type 0 where
  behind : k * interval ≤ now
  ahead : now ≤ suc k * interval
  same_ttl : st.ttl ≡ pos (suc ttl)
  recent : Created (λ c. k * interval ≤ c + suc ttl) st

gc-IsTimely :
    (ttl k interval now : ℕ) (st : Store)
    → IsTimely ttl k interval now st
    → IsTimely ttl (suc k) interval (suc k * interval) (gc (suc k * interval) st)
gc-IsTimely ttl k interval now st h = record {
  behind = omega arith;
  ahead = rw (suc-mul (suc k)) (omega arith);
  same_ttl = gc-ttl (suc k * interval) st ∙ h.same_ttl;
  recent = gc-IsRecent ttl (suc k * interval) st h.same_ttl;
}

Swept-IsTimely :
    (cfg : Config) (b : Bound) (ttl : ℕ)
    → (apply_defaults cfg).ttl ≡ pos (suc ttl)
    → {k now : ℕ} {s : Server} → Swept cfg b k now s
    → IsTimely ttl k (gc_interval (apply_defaults cfg).ttl) now s.store
unfolding started new_store handle_session gc_loop gc_tick record_obs
Swept-IsTimely cfg b ttl is_ttl launch_probe = record {
  behind = omega arith;
  ahead = omega arith;
  same_ttl = is_ttl;
  recent = tt;
}
Swept-IsTimely cfg b ttl is_ttl (wait_until t run later soon) =
    let h = Swept-IsTimely cfg b ttl is_ttl run in
    record {
      behind = omega (arith, h.behind);
      ahead = soon;
      same_ttl = h.same_ttl;
      recent = h.recent;
    }
Swept-IsTimely cfg b ttl is_ttl (record_between {s = s} e session o run at_now) =
    let h = Swept-IsTimely cfg b ttl is_ttl run in
    record {
      behind = h.behind;
      ahead = h.ahead;
      same_ttl = append-ttl e.now session o s.store ∙ h.same_ttl;
      recent = append-Created _ e.now session o s.store (omega (arith, h.behind, at_now)) h.recent;
    }
Swept-IsTimely cfg b ttl is_ttl (read_between {now = now} {s = s} id run) =
    let h = Swept-IsTimely cfg b ttl is_ttl run in
    record {
      behind = h.behind;
      ahead = h.ahead;
      same_ttl = get-ttl now id s.store ∙ h.same_ttl;
      recent = get-Created _ now id s.store h.recent;
    }
Swept-IsTimely cfg b ttl is_ttl (sweep_tick {k = k} {now = now} {s = s} run) =
    gc-IsTimely ttl k (gc_interval (apply_defaults cfg).ttl) now s.store
      (Swept-IsTimely cfg b ttl is_ttl run)

Created-within :
    (bound reach slack : ℕ) (m : List (Bytes × Session))
    → All (λ e. bound ≤ e.1.created + reach) m
    → (now : ℕ) → now ≤ bound + slack
    → All (λ e. now ≤ e.1.created + reach + slack) m
Created-within bound reach slack [] h now soon = tt
Created-within bound reach slack (e ∷ m) h now soon =
    (omega (arith, h.0, soon), Created-within bound reach slack m h.1 now soon)

-- With a time to live that is positive and a ticker that fires on time, a session leaves the registry
-- at most one interval of `gcLoop` behind its time to live: whatever the handlers do between the
-- ticks, each session that is held was created within the time to live and one interval.
pub Swept-IsRecent :
    (cfg : Config) (b : Bound) (ttl : ℕ)
    → (apply_defaults cfg).ttl ≡ pos (suc ttl)
    → {k now : ℕ} {s : Server} → Swept cfg b k now s
    → All (λ e. now ≤ e.1.created + suc ttl + gc_interval (apply_defaults cfg).ttl) s.store.sessions
Swept-IsRecent cfg b ttl is_ttl {k} {now} {s} run =
    let h = Swept-IsTimely cfg b ttl is_ttl run in
    let step = gc_interval (apply_defaults cfg).ttl in
    Created-within (k * step) (suc ttl) step s.store.sessions h.recent now
      (omega (arith, rw suc-mul at h.ahead))
