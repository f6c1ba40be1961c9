-- ===== src/Client/Run/Steps.antt =====
-- How a run ends.
use netsee.Client.Measure.{measure, warn}
use netsee.Client.Result.{Measurement, Result, alone, with_direct}
use netsee.Client.Run.{
  Command, Ended, HostRoute, aborted, add_failed, after_discovery, direct_route, direct_with,
  discover, finished, run, run_at, run_stuck, with_comparison,
}
use netsee.Client.Session.{ProbeSession}
use netsee.Client.Types.{Fallible, failed_with, succeeded}
use netsee.Client.World.{Libraries, Meets, RunConfig, normalize}
use netsee.Prelude.{
  Bool, List, Option, [], false, if◌then◌else◌, none, refl, some, true, ℕ, ◌++◌, ◌∷◌, ◌≡◌,
}
use netsee.Prelude.Text.{Bytes, utf8}

module _ (lib : Libraries) (world : ℕ → Meets) (config : RunConfig) where
  -- The configuration that the run goes by, and that of the direct run in it.
  abbrev main_config : RunConfig
  main_config = normalize config

  abbrev direct_config : RunConfig
  direct_config = normalize (record (normalize config) { direct = false })

  -- Why there is no direct comparison, in the order of the tests.
  pub data HasNoDirect (e : Bytes) : Type 0 where
    no_way : direct_route lib main_config (world 0) ≡ failed_with e → HasNoDirect e
    not_added :
        (r : HostRoute) (why : Bytes)
        → direct_route lib main_config (world 0) ≡ succeeded r
        → (world 0).add_error ≡ some why
        → e ≡ add_failed why
        → HasNoDirect e
    no_probe :
        (r : HostRoute)
        → direct_route lib main_config (world 0) ≡ succeeded r
        → (world 0).add_error ≡ none
        → discover lib direct_config (world 1) ≡ failed_with e
        → HasNoDirect e

  pub data IsResult (m : Measurement) : Result → Type 0 where
    plain : config.direct ≡ false → IsResult m (alone m)
    without_direct :
        (e : Bytes)
        → config.direct ≡ true
        → HasNoDirect e
        → IsResult m (alone (record m { notes = m.notes ++ (warn (utf8 "直连对比不可用") e ∷ []) }))
    compared :
        (r : HostRoute) (sess : ProbeSession)
        → config.direct ≡ true
        → direct_route lib main_config (world 0) ≡ succeeded r
        → (world 0).add_error ≡ none
        → discover lib direct_config (world 1) ≡ succeeded sess
        → IsResult m (with_direct m (alone (measure lib direct_config (world 1) sess)))

  abbrev pub EndsWell : Ended → Type 0
  EndsWell run_stuck = ⊥
  EndsWell (aborted e) = discover lib main_config (world 0) ≡ failed_with e
  EndsWell (finished r) =
      (sess : ProbeSession) × (discover lib main_config (world 0) ≡ succeeded sess)
      × IsResult (measure lib main_config (world 0) sess) r

  -- What a run with no direct comparison comes to.
  plain_end : RunConfig → Meets → Fallible ProbeSession → Ended
  plain_end c w (failed_with e) = aborted e
  plain_end c w (succeeded sess) = finished (alone (measure lib c w sess))

  after_discovery-plain :
      (c : RunConfig) (w : Meets) (inner : Ended × List Command) (session : Fallible ProbeSession)
      → c.direct ≡ false
      → after_discovery lib c w inner session ≡ (plain_end c w session, [])
  unfolding after_discovery plain_end
  after_discovery-plain c w inner (failed_with e) off = refl
  after_discovery-plain c w inner (succeeded sess) off = rw off refl

  direct-EndsWell :
      (sess : ProbeSession) (route : Fallible HostRoute) (added : Option Bytes)
      (session : Fallible ProbeSession)
      → config.direct ≡ true
      → discover lib main_config (world 0) ≡ succeeded sess
      → direct_route lib main_config (world 0) ≡ route
      → (world 0).add_error ≡ added
      → discover lib direct_config (world 1) ≡ session
      → EndsWell
          (with_comparison (measure lib main_config (world 0) sess) (
            direct_with added
              (world 0).del_works
              (plain_end direct_config (world 1) session, [])
              route)).0
  unfolding with_comparison direct_with plain_end
  direct-EndsWell sess (failed_with e) added session on d0 r a d1 =
      (sess, d0, without_direct e on (no_way r))
  direct-EndsWell sess (succeeded route) (some why) session on d0 r a d1 =
      (sess, d0, without_direct (add_failed why) on (not_added route why r a refl))
  direct-EndsWell sess (succeeded route) none (failed_with e) on d0 r a d1 =
      (sess, d0, without_direct e on (no_probe route r a d1))
  direct-EndsWell sess (succeeded route) none (succeeded sess') on d0 r a d1 =
      (sess, d0, compared route sess' on r a d1)

  if-EndsWell :
      (b : Bool) (x y : Ended × List Command)
      → (b ≡ true → EndsWell x.0)
      → (b ≡ false → EndsWell y.0)
      → EndsWell (if b then x else y).0
  if-EndsWell true x y hx hy = hx refl
  if-EndsWell false x y hx hy = hy refl

  after_discovery-EndsWell :
      (inner : Ended × List Command) (session : Fallible ProbeSession)
      → discover lib main_config (world 0) ≡ session
      → inner ≡ (plain_end direct_config (world 1) (discover lib direct_config (world 1)), [])
      → EndsWell (after_discovery lib main_config (world 0) inner session).0
  unfolding after_discovery normalize
  after_discovery-EndsWell inner (failed_with e) h i = h
  after_discovery-EndsWell inner (succeeded sess) h i =
      if-EndsWell main_config.direct _ _
        (λ on. rw i (
          direct-EndsWell sess (direct_route lib main_config (world 0)) (world 0).add_error
            (discover lib direct_config (world 1)) on h refl refl refl))
        (λ off. (sess, h, plain off))

-- `Run` ends: it aborts exactly with the error of the probe's discovery, and otherwise gives the
-- measurement. A direct comparison that fails, for whatever reason, is a note behind the others; one
-- that succeeds is a measurement of its own, which has no direct part.
pub run-EndsWell :
    (lib : Libraries) (world : ℕ → Meets) (config : RunConfig)
    → EndsWell lib world config (run lib world config).0
unfolding run run_at normalize
run-EndsWell lib world config =
    let sub = record (normalize config) { direct = false } in
    after_discovery-EndsWell lib world config (run_at lib world 1 1 sub)
      (discover lib (normalize config) (world 0)) refl
      (after_discovery-plain lib world config (normalize sub) (world 1) (run_stuck, [])
        (discover lib (normalize sub) (world 1)) refl)
