-- ===== src/Proto/Store/Runs.antt =====
-- Any sequence of calls of the registry's methods, by any number of clients: the mutex makes each
-- call one step. An observation is appended under the session that it names.
use netsee.Prelude.{All, List, [], arith, length, refl, ℕ, ◌*◌, ◌+◌, ◌<◌, ◌∙◌, ◌∷◌, ◌≡◌, ◌≤◌}
use netsee.Prelude.Int.{pos, ℤ}
use netsee.Prelude.Text.{Bytes}
use netsee.Proto.Store.{Session, Store, append, append_valid, gc, get, len, new_store}
use netsee.Proto.Store.Bounds.{
  IsEntry, IsValid, append-IsValid, evict_expired-config, gc-IsValid, get-IsValid, make_room-config,
  new_store-IsValid,
}
use netsee.Proto.Types.{Obs}

pub data Step : Store → Store → Type 0 where
  append_step :
      (now : ℕ) (id : Bytes) (o : Obs) (st : Store)
      → o.session ≡ id
      → Step st (append now id o st).0
  get_step : (now : ℕ) (id : Bytes) (st : Store) → Step st (get now id st).0
  gc_step : (now : ℕ) (st : Store) → Step st (gc now st)

pub data Reach (st : Store) : Store → Type 0 where
  at_start : Reach st st
  next : {t u : Store} → Reach st t → Step t u → Reach st u

pub Reach-trans : {s t u : Store} → Reach s t → Reach t u → Reach s u
Reach-trans r at_start = r
Reach-trans r (next q step) = next (Reach-trans r q) step

Step-IsValid : {t u : Store} → Step t u → IsValid t → IsValid u
Step-IsValid (append_step now id o st names) v = append-IsValid now id o st v
Step-IsValid (get_step now id st) v = get-IsValid now id st v
Step-IsValid (gc_step now st) v = gc-IsValid now st v

pub Reach-IsValid : {s t : Store} → IsValid s → Reach s t → IsValid t
Reach-IsValid v at_start = v
Reach-IsValid v (next r step) = Step-IsValid step (Reach-IsValid v r)

Step-max : {t u : Store} → Step t u → u.max ≡ t.max
unfolding append append_valid get gc
Step-max (append_step now id o st names) = ground (arith, make_room-config now st)
Step-max (get_step now id st) = ground arith
Step-max (gc_step now st) = (evict_expired-config now st).1

Reach-max : {s t : Store} → Reach s t → t.max ≡ s.max
Reach-max at_start = refl
Reach-max (next r step) = Step-max step ∙ Reach-max r

-- All observations of all sessions.
pub total_obs : List (Bytes × Session) → ℕ
total_obs [] = 0
total_obs ((id, s) ∷ m) = length s.obs + total_obs m

total_obs-le : (m : List (Bytes × Session)) → All IsEntry m → total_obs m ≤ 4096 * length m
unfolding total_obs
total_obs-le [] h = omega arith
total_obs-le ((id, s) ∷ m) h = omega (arith, h.0.few_obs, total_obs-le m h.1)

-- With a positive cap `n`, after any run of the operations from the empty registry: at most `n`
-- sessions are held, and at most 4096 * n observations.
pub Reach-bounded :
    (ttl : ℤ) (n : ℕ) (st : Store)
    → 0 < n
    → Reach (new_store ttl (pos n)) st
    → (len st ≤ n) × (total_obs st.sessions ≤ 4096 * n)
unfolding len new_store
Reach-bounded ttl n st h r =
    let v = Reach-IsValid (new_store-IsValid ttl (pos n)) r in
    let cap : st.max ≡ pos n = Reach-max r in
    let few : length st.sessions ≤ n = ground (arith, cap, v.bounded) in
    (few, omega (arith, few, total_obs-le st.sessions v.entries))
