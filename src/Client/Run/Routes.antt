-- ===== src/Client/Run/Routes.antt =====
-- What a run does to the routing table.
use netsee.Client.Attribution.{is_tun_interface}
use netsee.Client.Measure.{measure}
use netsee.Client.Result.{Measurement, alone}
use netsee.Client.Run.{
  Command, Ended, HostRoute, aborted, after_discovery, direct_route, direct_with, finished,
  route_add, route_del, run, run_at, run_stuck, with_comparison,
}
use netsee.Client.Session.{ProbeSession, host_of}
use netsee.Client.Types.{Fallible, failed_with, succeeded}
use netsee.Client.World.{Libraries, Meets, RunConfig, normalize}
use netsee.Prelude.{
  Bool, List, Option, [], arith, false, if◌then◌else◌, inl, inr, none, refl, some, suc, true, zero,
  ℕ, ◌&&◌, ◌∷◌, ◌≡◌, ◌⊎◌,
}
use netsee.Prelude.Text.{Bytes, bytes_beq, bytes_beq_iff}

-- The host route leads around the TUN, to the probe's address.
pub record IsBypass (lib : Libraries) (config : RunConfig) (r : HostRoute) : Type 0 where
  pub to_probe : r.host ≡ host_of lib.parse_url (normalize config).probe_url
  pub not_loopback : lib.parse_ip r.host ≡ some false
  pub not_tun : is_tun_interface r.iface ≡ false

-- The commands of a run: what was added is deleted, by a command that works or not.
pub data IsRestored (lib : Libraries) (config : RunConfig) (del_works : Bool)
    : List Command → Type 0 where
  untouched : IsRestored lib config del_works []
  refused_add :
      (r : HostRoute)
      → IsBypass lib config r
      → IsRestored lib config del_works (route_add false r ∷ [])
  added_deleted :
      (r : HostRoute)
      → IsBypass lib config r
      → IsRestored lib config del_works (route_add true r ∷ route_del del_works r ∷ [])

-- What the commands do to the table of host routes.
same_route : HostRoute → HostRoute → Bool
same_route r x = bytes_beq r.host x.host && bytes_beq r.gw x.gw && bytes_beq r.iface x.iface

without_route : HostRoute → List HostRoute → List HostRoute
without_route r [] = []
without_route r (x ∷ table) =
    let rest = without_route r table in if same_route r x then table else x ∷ rest

pub routes_after : List Command → List HostRoute → List HostRoute
routes_after [] table = table
routes_after (route_add works r ∷ commands) table =
    routes_after commands (if works then r ∷ table else table)
routes_after (route_del works r ∷ commands) table =
    routes_after commands (if works then without_route r table else table)

-- The table is as it was, or the deletion failed and the route around the TUN is in it.
abbrev pub LeavesTable : Libraries → RunConfig → Bool → List Command → Type 0
LeavesTable lib config del_works commands =
    (table : List HostRoute)
    → (routes_after commands table ≡ table)
      ⊎ ((r : HostRoute) × IsBypass lib config r
          × (del_works ≡ false)
          × (routes_after commands table ≡ r ∷ table))

same_route_refl : (r : HostRoute) → same_route r r ≡ true
unfolding same_route
same_route_refl r =
    rw
      (
        (bytes_beq_iff r.host r.host).1 refl,
        (bytes_beq_iff r.gw r.gw).1 refl,
        (bytes_beq_iff r.iface r.iface).1 refl,
      )
      refl

IsRestored-LeavesTable :
    (lib : Libraries) (config : RunConfig) (del_works : Bool) (commands : List Command)
    → IsRestored lib config del_works commands
    → LeavesTable lib config del_works commands
unfolding routes_after without_route
IsRestored-LeavesTable lib config works _ untouched table = inl refl
IsRestored-LeavesTable lib config works _ (refused_add r b) table = inl refl
IsRestored-LeavesTable lib config true _ (added_deleted r b) table =
    inl (rw (same_route_refl r) refl)
IsRestored-LeavesTable lib config false _ (added_deleted r b) table = inr (r, b, refl, refl)

direct_route-IsBypass :
    (lib : Libraries) (config : RunConfig) (w : Meets) (r : HostRoute)
    → direct_route lib (normalize config) w ≡ succeeded r
    → IsBypass lib config r
unfolding direct_route
direct_route-IsBypass lib config w r h = ground arith

direct_with-IsRestored :
    (lib : Libraries) (config : RunConfig) (add_error : Option Bytes) (works : Bool)
    (inner : Ended × List Command) (route : Fallible HostRoute)
    → inner.1 ≡ []
    → ((r : HostRoute) → route ≡ succeeded r → IsBypass lib config r)
    → IsRestored lib config works (direct_with add_error works inner route).1
unfolding direct_with
direct_with-IsRestored lib config error works inner (failed_with e) none_inside bypass = untouched
direct_with-IsRestored lib config (some e) works inner (succeeded r) none_inside bypass =
    refused_add r (bypass r refl)
direct_with-IsRestored lib config none works inner (succeeded r) none_inside bypass =
    rw none_inside (added_deleted r (bypass r refl))

with_comparison-commands :
    (m : Measurement) (direct : Ended × List Command) → (with_comparison m direct).1 ≡ direct.1
unfolding with_comparison
with_comparison-commands m (finished d, commands) = refl
with_comparison-commands m (aborted e, commands) = refl
with_comparison-commands m (run_stuck, commands) = refl

after_discovery-commands :
    (lib : Libraries) (c : RunConfig) (w : Meets) (inner : Ended × List Command)
    (session : Fallible ProbeSession)
    → c.direct ≡ false
    → (after_discovery lib c w inner session).1 ≡ []
unfolding after_discovery
after_discovery-commands lib c w inner (failed_with e) off = refl
after_discovery-commands lib c w inner (succeeded sess) off = rw off refl

if-IsRestored :
    (lib : Libraries) (config : RunConfig) (works b : Bool) (x y : Ended × List Command)
    → IsRestored lib config works x.1
    → IsRestored lib config works y.1
    → IsRestored lib config works (if b then x else y).1
if-IsRestored lib config works true x y hx hy = hx
if-IsRestored lib config works false x y hx hy = hy

after_discovery-IsRestored :
    (lib : Libraries) (config : RunConfig) (w : Meets) (inner : Ended × List Command)
    (session : Fallible ProbeSession)
    → inner.1 ≡ []
    → IsRestored lib config w.del_works (after_discovery lib (normalize config) w inner session).1
unfolding after_discovery
after_discovery-IsRestored lib config w inner (failed_with e) none_inside = untouched
after_discovery-IsRestored lib config w inner (succeeded sess) none_inside =
    let route = direct_route lib (normalize config) w in
    let direct = direct_with w.add_error w.del_works inner route in
    let m = measure lib (normalize config) w sess in
    let restored =
      direct_with-IsRestored lib config w.add_error w.del_works inner route none_inside
        (direct_route-IsBypass lib config w) in
    if-IsRestored lib config w.del_works (normalize config).direct (with_comparison m direct)
      (finished (alone m), []) (rw (with_comparison-commands m direct) restored) untouched

run_at-commands :
    (lib : Libraries) (world : ℕ → Meets) (fuel depth : ℕ) (config : RunConfig)
    → config.direct ≡ false
    → (run_at lib world fuel depth config).1 ≡ []
unfolding run_at normalize
run_at-commands lib world zero depth config off = refl
run_at-commands lib world (suc fuel) depth config off =
    after_discovery-commands lib (normalize config) (world depth) _ _ off

-- However its steps end, a run touches nothing, or its one `ip route add` is refused, or it adds a
-- route and, at the end, asks once for the deletion of the same. So the table of host routes is as it
-- was, but where that deletion fails: then it has just that route more. The route leads to the
-- probe's address, which is no loopback address, over an interface that is no TUN.
pub run-IsRestored :
    (lib : Libraries) (world : ℕ → Meets) (config : RunConfig)
    → IsRestored lib config (world 0).del_works (run lib world config).1
      × LeavesTable lib config (world 0).del_works (run lib world config).1
unfolding run run_at
run-IsRestored lib world config =
    let restored =
      after_discovery-IsRestored lib config (world 0) _ _ (run_at-commands lib world 1 1 _ refl) in
    (restored, IsRestored-LeavesTable lib config (world 0).del_works _ restored)
