-- ===== src/Client/Run.antt =====
-- internal/client/run.go: `Run` and `runDirect`, which call each other. The commands that change the
-- routing table are a trace.
pub mod Routes
pub mod Steps
mod Tests
use netsee.Client.Attribution.{is_tun_interface}
use netsee.Client.Local.{physical_default_v4}
use netsee.Client.Measure.{measure, warn}
use netsee.Client.Result.{Measurement, Result, alone, with_direct}
use netsee.Client.Session.{ProbeSession, host_of, new_session}
use netsee.Client.Types.{Fallible, failed_with, succeeded}
use netsee.Client.World.{Libraries, Meets, RunConfig, normalize}
use netsee.Prelude.{
  Bool, List, Option, [], false, if◌then◌else◌, none, some, suc, true, zero, ℕ, ◌++◌, ◌∷◌,
}
use netsee.Prelude.Text.{Bytes, utf8}

-- `ip route add HOST/32 via GW dev IFACE` and `ip route del` of the same; each works or not.
pub record HostRoute : Type 0 where
  pub host : Bytes
  pub gw : Bytes
  pub iface : Bytes

pub data Command : Type 0 where
  route_add : Bool → HostRoute → Command
  route_del : Bool → HostRoute → Command

-- How `Run` ends. `run_stuck` is no result of the source: the fuel ran out.
pub data Ended : Type 0 where
  finished : Result → Ended
  aborted : Bytes → Ended
  run_stuck : Ended

-- What `runDirect` finds before it touches the routing table: an error, or the route to add.
pub direct_route : Libraries → RunConfig → Meets → Fallible HostRoute
direct_route lib c w =
    let host = host_of lib.parse_url c.probe_url in
    elim (lib.parse_ip host) [
      | none ↦ failed_with (utf8 "探针地址 " ++ (lib.quote host ++ utf8 " 非 IP，无法加直连路由"))
      | some loopback ↦
          if loopback
          then failed_with (utf8 "探针为回环地址，无需直连路由")
          else elim (physical_default_v4 w.platform w.route_error w.system) [
            | failed_with e ↦ failed_with (utf8 "无物理直连路由: " ++ e)
            | succeeded (iface, gw) ↦
                if is_tun_interface iface
                then failed_with (utf8 "默认路由仍为 TUN，无法建立直连路径")
                else succeeded (record { host = host; gw = gw; iface = iface })
          ]
    ]

-- The text for a failed `ip route add`; the error and the output of the command are one parameter.
abbrev add_failed : Bytes → Bytes
add_failed e = utf8 "直连路由添加失败（需 root 或代理覆盖路由守卫）: " ++ e

-- `runDirect` with what the run below it did: the deferred deletion comes behind it, and nothing
-- reads whether it works.
direct_with : Option Bytes → Bool → Ended × List Command → Fallible HostRoute → Ended × List Command
direct_with add_error del_works inner (failed_with e) = (aborted e, [])
direct_with (some e) del_works inner (succeeded r) =
    (aborted (add_failed e), route_add false r ∷ [])
direct_with none del_works inner (succeeded r) =
    (inner.0, route_add true r ∷ (inner.1 ++ (route_del del_works r ∷ [])))

-- The end of `Run`, with what `runDirect` gave.
with_comparison : Measurement → Ended × List Command → Ended × List Command
with_comparison m (finished d, commands) = (finished (with_direct m d), commands)
with_comparison m (aborted e, commands) =
    (finished (alone (record m { notes = m.notes ++ (warn (utf8 "直连对比不可用") e ∷ []) })), commands)
with_comparison m (run_stuck, commands) = (run_stuck, commands)

-- `Run` behind the discovery of the probe, with what a direct run below it would do.
after_discovery :
    Libraries
    → RunConfig
    → Meets
    → Ended × List Command
    → Fallible ProbeSession
    → Ended × List Command
unfolding direct_with with_comparison
after_discovery lib c w inner (failed_with e) = (aborted e, [])
after_discovery lib c w inner (succeeded sess) =
    let m = measure lib c w sess in
    if c.direct
    then with_comparison m (direct_with w.add_error w.del_works inner (direct_route lib c w))
    else (finished (alone m), [])

-- `NewSession` as `Run` calls it.
pub discover : Libraries → RunConfig → Meets → Fallible ProbeSession
discover lib c w = new_session lib.decode_info w.fresh_id c.probe_url w.info_reply

-- `Run` at a depth of calls: it meets the world of its depth.
run_at : Libraries → (ℕ → Meets) → ℕ → ℕ → RunConfig → Ended × List Command
unfolding after_discovery discover
run_at lib world zero depth config = (run_stuck, [])
run_at lib world (suc fuel) depth config =
    let c = normalize config in
    let inner = run_at lib world fuel (suc depth) (record c { direct = false }) in
    after_discovery lib c (world depth) inner (discover lib c (world depth))

-- Fuel for the run and for the direct run in it.
pub run : Libraries → (ℕ → Meets) → RunConfig → Ended × List Command
unfolding run_at
run lib world config = run_at lib world 2 0 config
