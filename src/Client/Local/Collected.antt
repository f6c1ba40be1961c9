-- ===== src/Client/Local/Collected.antt =====
-- What `CollectLocal` gives.
use netsee.Client.Local.{LocalSystem, Platform, collect_local, linux, other_system, windows}
use netsee.Client.Types.{LocalInfo, succeeded}
use netsee.Prelude.{refl, ◌≡◌}

-- On no platform an error.
pub collect_local-succeeds :
    (platform : Platform) (sys : LocalSystem)
    → (l : LocalInfo) × (collect_local platform sys ≡ succeeded l)
unfolding collect_local
collect_local-succeeds linux sys = (_, refl)
collect_local-succeeds windows sys = (_, refl)
collect_local-succeeds other_system sys = (_, refl)
