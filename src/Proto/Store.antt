-- ===== src/Proto/Store.antt =====
-- internal/proto/store.go: the session registry. Each method holds the mutex from its first read
-- to its return, so a method is one step on the state. The map is its list of entries in the order
-- of one iteration; the laws hold for every such order.

pub mod Evict
pub mod Bounds
pub mod Contents
pub mod Runs
pub mod Filed
pub mod Ages
pub mod Order
mod Tests
use netsee.Prelude.{
  Bool, List, Option, [], false, if◌then◌else◌, length, ltb, none, some, true, ℕ, ◌&&◌, ◌++◌, ◌∷◌,
}
use netsee.Prelude.Dict.{erase, insert, lookup}
use netsee.Prelude.Int.{leb_ℤ, ltb_ℤ, pos, sub_ℕ, ℤ}
use netsee.Prelude.Text.{Bytes, bytes_eq}
use netsee.Proto.SessionId.{valid_session_id}
use netsee.Proto.Types.{Obs}

abbrev pub max_obs_per_session : ℕ
max_obs_per_session = 4096

pub record Session : Type 0 where
  pub id : Bytes
  pub created : ℕ
  pub obs : List Obs

-- The clock is an argument of the methods that read it.
pub record Store : Type 0 where
  pub sessions : List (Bytes × Session)
  pub ttl : ℤ
  pub max : ℤ

unfoldable pub new_store : ℤ → ℤ → Store
new_store ttl max = record { sessions = []; ttl = ttl; max = max }

-- `now.Sub(sess.Created) > s.ttl`
unfoldable pub is_expired : ℤ → ℕ → Session → Bool
is_expired ttl now s = ltb_ℤ ttl (sub_ℕ now s.created)

-- The loop of `evictExpiredLocked`
pub drop_expired : ℤ → ℕ → List (Bytes × Session) → List (Bytes × Session)
drop_expired ttl now [] = []
drop_expired ttl now ((id, s) ∷ m) =
    let rest = drop_expired ttl now m in if is_expired ttl now s then rest else (id, s) ∷ rest

pub evict_expired : ℕ → Store → Store
unfolding drop_expired
evict_expired now st =
    if leb_ℤ st.ttl (pos 0)
    then st
    else record st { sessions = drop_expired st.ttl now st.sessions }

-- The loop of `evictOldestLocked`, from the id and the time found so far.
oldest_from : Bytes → ℕ → List (Bytes × Session) → Bytes
oldest_from id time [] = id
oldest_from id time ((j, s) ∷ m) =
    let first = ltb s.created time in
    oldest_from (if first then j else id) (if first then s.created else time) m

-- The session that the loop leaves in `oldestID`; none on an empty map.
pub oldest : List (Bytes × Session) → Option Bytes
unfolding oldest_from
oldest [] = none
oldest ((j, s) ∷ m) = some (oldest_from j s.created m)

pub without_oldest : List (Bytes × Session) → List (Bytes × Session)
unfolding oldest
without_oldest m = elim (oldest m) [ none ↦ m | some id ↦ erase id m ]

pub evict_oldest : Store → Store
unfolding without_oldest
evict_oldest st = record st { sessions = without_oldest st.sessions }

-- `s.max > 0 && len(s.sessions) >= s.max`
pub is_full : Store → Bool
is_full st = ltb_ℤ (pos 0) st.max && leb_ℤ st.max (pos (length st.sessions))

-- The branch that makes room before a new session is created.
pub make_room : ℕ → Store → Store
unfolding evict_expired evict_oldest is_full
make_room now st =
    let st' = evict_expired now st in
    let rested = if leb_ℤ st'.max (pos (length st'.sessions)) then evict_oldest st' else st' in
    if is_full st then rested else st

pub push_obs : Obs → Session → Session
push_obs o s =
    if ltb (length s.obs) max_obs_per_session then record s { obs = s.obs ++ (o ∷ []) } else s

-- Behind the test of the identifier.
pub append_valid : ℕ → Bytes → Obs → Store → Store
append_valid now session o st = elim (lookup session st.sessions) [
  | some s ↦ record st { sessions = insert session (push_obs o s) st.sessions }
  | none ↦
      let st' = make_room now st in
      let fresh : Session = record { id = session; created = now; obs = [] } in
      record st' { sessions = insert session (push_obs o fresh) st'.sessions }
]

pub append : ℕ → Bytes → Obs → Store → Store × Bool
append now session o st =
    if valid_session_id session then (append_valid now session o st, true) else (st, false)

-- An expired session is deleted by the read that finds it.
pub get : ℕ → Bytes → Store → Store × Option Session
get now id st =
    if valid_session_id id
    then elim (lookup id st.sessions) [
      | none ↦ (st, none)
      | some s ↦
          if ltb_ℤ (pos 0) st.ttl && is_expired st.ttl now s
          then (record st { sessions = erase id st.sessions }, none)
          else (st, some s)
    ]
    else (st, none)

pub len : Store → ℕ
len st = length st.sessions

pub gc : ℕ → Store → Store
unfolding evict_expired
gc = evict_expired
