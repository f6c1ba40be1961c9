-- ===== src/Client/Routes/Chosen.antt =====
-- What the parsers of the routing tables return.

use mathlib.Core.List.{Memᴰ}
use mathlib.Core.Option
use netsee.Client.Routes.{
  Route, found_route, lines, no_route, parse_physical_v4, parse_route_v4, parse_route_v6,
  physical_v4, route_v4, route_v6, scan,
}
use netsee.Client.Routes.Lowest.{
  IsCounted, IsLowest, chosen, chosen-IsLowest, chosen_nil, routes_of, routes_of-All, scan-chosen,
}
use netsee.Client.Routes.Physical.{IsPhysical, physical_v4_iff}
use netsee.Client.Routes.Words.{physical_v4-IsWord, route_v4-IsWord, route_v6-IsWord}
use netsee.Prelude.{All, List, Option, [], false, none, refl, some, ◌↔◌, ◌∷◌, ◌≡◌}
use netsee.Prelude.Int.{ℤ}
use netsee.Prelude.Text.{Bytes, is_empty}

-- No route without a candidate; otherwise the interface and the gateway of a lowest candidate.
abbrev pub IsChosen : List Route → Option (Bytes × Bytes) → Type 0
IsChosen rs none = rs ≡ []
IsChosen rs (some (iface, gw)) = (r : Route) × IsLowest rs r × (r.iface ≡ iface) × (r.gw ≡ gw)

abbrev IsNamed : Route → Type 0
IsNamed r = is_empty r.iface ≡ false

All-Mem : (P : Route → Type 0) (rs : List Route) (r : Route) → All P rs → Memᴰ r rs → P r
All-Mem P [] r h m = elim m [ ]
All-Mem P (x ∷ rs) r h (Memᴰ.head e) = rw e h.0
All-Mem P (x ∷ rs) r h (Memᴰ.tail m) = All-Mem P rs r h.1 m

chosen-IsChosen :
    (rs : List Route)
    → All IsCounted rs
    → All IsNamed rs
    → IsChosen rs (found_route (chosen no_route rs))
unfolding found_route
chosen-IsChosen [] counted named = rw chosen_nil refl
chosen-IsChosen (r ∷ rs) counted named =
    let low = chosen-IsLowest r rs counted in
    let name = All-Mem IsNamed (r ∷ rs) (chosen no_route (r ∷ rs)) named low.among in
    rw name (chosen no_route (r ∷ rs), low, refl, refl)

scan-IsChosen :
    (route_of : Bytes → Option Route) (ls : List Bytes)
    → All IsCounted (routes_of route_of ls)
    → All IsNamed (routes_of route_of ls)
    → IsChosen (routes_of route_of ls) (found_route (scan route_of no_route ls))
scan-IsChosen route_of ls counted named =
    rw scan-chosen (chosen-IsChosen (routes_of route_of ls) counted named)

-- If no metric is negative, `parseRouteV4` returns the interface and gateway of a route of the
-- lowest metric among the default routes that are up, and an error only if there is none.
pub parse_route_v4-IsChosen :
    (atoi : Bytes → ℤ) (text : Bytes)
    → All IsCounted (routes_of (route_v4 atoi) (lines text))
    → IsChosen (routes_of (route_v4 atoi) (lines text)) (parse_route_v4 atoi text)
unfolding parse_route_v4
parse_route_v4-IsChosen atoi text counted =
    scan-IsChosen (route_v4 atoi) (lines text) counted
      (routes_of-All IsNamed (route_v4 atoi) (lines text) (route_v4-IsWord atoi))

-- If no metric is negative, `parsePhysicalV4` returns the interface and gateway of a candidate of the
-- lowest metric, and an error only if there is none. A line is a candidate exactly if it has 11
-- fields at least, its destination is 00000000, its flags are read and the lowest bit of them is
-- set, and its interface is not named tun..., utun... or wg...
pub parse_physical_v4-IsChosen :
    (atoi : Bytes → ℤ) (text : Bytes)
    → All IsCounted (routes_of (physical_v4 atoi) (lines text))
    → IsChosen (routes_of (physical_v4 atoi) (lines text)) (parse_physical_v4 atoi text)
      × ((line : Bytes) (r : Route) → (physical_v4 atoi line ≡ some r) ↔ IsPhysical atoi line r)
unfolding parse_physical_v4
parse_physical_v4-IsChosen atoi text counted = (
  scan-IsChosen (physical_v4 atoi) (lines text) counted (
      routes_of-All IsNamed (physical_v4 atoi) (lines text)
        (λ line r e. (physical_v4-IsWord atoi line r e).0)),
  physical_v4_iff atoi,
)

-- No IPv6 route without a candidate; otherwise the interface of a lowest one.
abbrev pub IsChosenV6 : List Route → Option Bytes → Type 0
IsChosenV6 rs none = rs ≡ []
IsChosenV6 rs (some iface) = (r : Route) × IsLowest rs r × (r.iface ≡ iface)

interface_of :
    (rs : List Route) (best : Option (Bytes × Bytes))
    → IsChosen rs best
    → IsChosenV6 rs (Option.map (λ r. r.0) best)
interface_of rs none h = h
interface_of rs (some (iface, gw)) (r, low, named, via) = (r, low, named)

-- `parseRouteV6` returns the interface of a default route of the lowest metric, and an error only
-- if there is none.
parse_route_v6-IsChosen :
    (text : Bytes) → IsChosenV6 (routes_of route_v6 (lines text)) (parse_route_v6 text)
unfolding parse_route_v6
parse_route_v6-IsChosen text = interface_of _ _ (
    scan-IsChosen route_v6 (lines text)
      (routes_of-All IsCounted route_v6 (lines text) (λ line r e. (route_v6-IsWord line r e).1))
      (routes_of-All IsNamed route_v6 (lines text) (λ line r e. (route_v6-IsWord line r e).0)))
