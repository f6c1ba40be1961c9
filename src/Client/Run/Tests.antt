-- ===== src/Client/Run/Tests.antt =====
-- A run with a direct comparison.
use netsee.Client.Measure.Samples.{config, libraries, meets}
use netsee.Client.Run.{run}
use netsee.Client.Run.Routes.{IsRestored, LeavesTable, run-IsRestored}
use netsee.Client.Run.Steps.{EndsWell, run-EndsWell}
use netsee.Client.World.{Meets}
use netsee.Prelude.{ℕ}

abbrev world : ℕ → Meets
world n = meets

run-IsRestored_example :
    IsRestored libraries config (world 0).del_works (run libraries world config).1
    × LeavesTable libraries config (world 0).del_works (run libraries world config).1
run-IsRestored_example = run-IsRestored libraries world config

run-EndsWell_example : EndsWell libraries world config (run libraries world config).0
run-EndsWell_example = run-EndsWell libraries world config
