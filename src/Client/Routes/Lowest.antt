-- ===== src/Client/Routes/Lowest.antt =====
-- Which route is chosen.

use mathlib.Core.List.{Memᴰ}
use netsee.Client.Routes.{Route, no_route, pick, scan}
use netsee.Prelude.{
  All, Bool-cases, List, Option, Option-cases, [], arith, inl, inr, none, refl, some, true, ◌||◌,
  ◌∙◌, ◌∷◌, ◌≡◌, ◌⊎◌,
}
use netsee.Prelude.Int.{leb_ℤ, ltb_ℤ, pos, ℤ}
use netsee.Prelude.Text.{Bytes}

-- The routes of the lines that are not skipped.
unfoldable pub routes_of : (Bytes → Option Route) → List Bytes → List Route
routes_of route_of [] = []
routes_of route_of (line ∷ rest) = elim (route_of line) [
  | none ↦ routes_of route_of rest
  | some r ↦ r ∷ routes_of route_of rest
]

pub routes_of-All :
    (P : Route → Type 0) (route_of : Bytes → Option Route) (ls : List Bytes)
    → ((line : Bytes) (r : Route) → route_of line ≡ some r → P r)
    → All P (routes_of route_of ls)
unfolding routes_of
routes_of-All P route_of [] each = tt
routes_of-All P route_of (line ∷ rest) each = elim (Option-cases (route_of line)) [
  | inl skipped ↦ rw (skipped, routes_of) (routes_of-All P route_of rest each)
  | inr (r, e) ↦ rw (e, routes_of) (each line r e, routes_of-All P route_of rest each)
]

-- A metric that is not negative.
abbrev pub IsCounted : Route → Type 0
IsCounted r = leb_ℤ (pos 0) r.metric ≡ true

-- The chosen one is among the routes, and none of them has a lower metric.
pub record IsLowest (rs : List Route) (r : Route) : Type 0 where
  pub among : Memᴰ r rs
  pub least : All (λ x. leb_ℤ r.metric x.metric ≡ true) rs

pub chosen : Route → List Route → Route
chosen best [] = best
chosen best (r ∷ rs) = chosen (pick best r) rs

pub scan-chosen :
    (route_of : Bytes → Option Route) (best : Route) (ls : List Bytes)
    → scan route_of best ls ≡ chosen best (routes_of route_of ls)
unfolding scan routes_of chosen
scan-chosen route_of best [] = refl
scan-chosen route_of best (line ∷ rest) = elim (Option-cases (route_of line)) [
  | inl skipped ↦ rw (skipped, scan, routes_of) (scan-chosen route_of best rest)
  | inr (r, e) ↦ rw (e, scan, routes_of) (scan-chosen route_of (pick best r) rest)
]

leb_ℤ_trans : (a b c : ℤ) → leb_ℤ a b ≡ true → leb_ℤ b c ≡ true → leb_ℤ a c ≡ true
leb_ℤ_trans a b c p q = ground arith

pick_cases : (best r : Route) → (pick best r ≡ best) ⊎ (pick best r ≡ r)
unfolding pick
pick_cases best r = elim (Bool-cases (ltb_ℤ best.metric (pos 0) || ltb_ℤ r.metric best.metric)) [
  | inl lower ↦ inr (rw lower refl)
  | inr higher ↦ inl (rw higher refl)
]

pick_le :
    (best r : Route)
    → IsCounted best
    → IsCounted r
    → (leb_ℤ (pick best r).metric best.metric ≡ true) × (leb_ℤ (pick best r).metric r.metric ≡ true)
unfolding pick
pick_le best r p q = elim (Bool-cases (ltb_ℤ best.metric (pos 0) || ltb_ℤ r.metric best.metric)) [
  | inl lower ↦ rw lower (ground arith)
  | inr higher ↦ rw higher (ground arith)
]

-- A run from a route that counts ends at it or at one of the list.
record Ends (best : Route) (rs : List Route) (r : Route) : Type 0 where
  from : (r ≡ best) ⊎ Memᴰ r rs
  under : leb_ℤ r.metric best.metric ≡ true
  least : All (λ x. leb_ℤ r.metric x.metric ≡ true) rs

chosen-Ends :
    (best : Route) (rs : List Route)
    → IsCounted best
    → All IsCounted rs
    → Ends best rs (chosen best rs)
unfolding chosen
chosen-Ends best [] p h = record { from = inl refl; under = ground arith; least = tt }
chosen-Ends best (r ∷ rs) p (q, h) =
    let kept : IsCounted (pick best r) = elim (pick_cases best r) [
      | inl e ↦ rw e p
      | inr e ↦ rw e q
    ] in
    let rest = chosen-Ends (pick best r) rs kept h in
    let (le_best, le_r) = pick_le best r p q in
    let r' = chosen (pick best r) rs in
    record {
      from = elim rest.from [
        | inr m ↦ inr (Memᴰ.tail m)
        | inl e ↦ elim (pick_cases best r) [ inl f ↦ inl (e ∙ f) | inr f ↦ inr (Memᴰ.head (e ∙ f)) ]
      ];
      under = leb_ℤ_trans r'.metric (pick best r).metric best.metric rest.under le_best;
      least = (leb_ℤ_trans r'.metric (pick best r).metric r.metric rest.under le_r, rest.least);
    }

-- From the start of the loop: the first route is taken, and then the lowest.
pub chosen-IsLowest :
    (r : Route) (rs : List Route)
    → All IsCounted (r ∷ rs)
    → IsLowest (r ∷ rs) (chosen no_route (r ∷ rs))
unfolding chosen pick
chosen-IsLowest r rs (p, h) =
    let rest = chosen-Ends r rs p h in
    record {
      among = elim rest.from [ inl e ↦ Memᴰ.head e | inr m ↦ Memᴰ.tail m ];
      least = (rest.under, rest.least);
    }

pub chosen_nil : (best : Route) → chosen best [] ≡ best
unfolding chosen
chosen_nil best = refl
