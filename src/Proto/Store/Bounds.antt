-- ===== src/Proto/Store/Bounds.antt =====
-- The registry's invariant and its methods: ids are valid and name one session each, a session
-- holds a bounded number of observations, and the cap on sessions is respected.
use netsee.Prelude.{
  All, Bool-cases, Option-cases, [], arith, inl, inr, length, length-append, refl, some, suc, true,
  ℕ, ◌<◌, ◌||◌, ◌∷◌, ◌≡◌, ◌≤◌,
}
use netsee.Prelude.Dict.{
  All-erase, All-insert, All-lookup, Distinct, erase, erase-Distinct, insert, insert-Distinct,
  length-erase, length-erase-le, length-insert_new, length-insert_old, lookup,
}
use netsee.Prelude.Int.{leb_ℤ, ltb_ℤ, pos, ℤ}
use netsee.Prelude.Text.{Bytes, bytes_eq}
use netsee.Proto.SessionId.{valid_session_id}
use netsee.Proto.Store.{
  Session, Store, append, append_valid, evict_expired, evict_oldest, gc, get, is_full, make_room,
  max_obs_per_session, new_store, oldest, push_obs, without_oldest,
}
use netsee.Proto.Store.Evict.{
  All-drop_expired, Sessions, drop_expired-Distinct, length-drop_expired-le, oldest-IsOldest,
}
use netsee.Proto.Types.{Obs}

-- An entry stands under its session's own id.
pub record IsEntry (e : Bytes × Session) : Type 0 where
  pub same_id : e.1.id ≡ e.0
  pub valid_id : valid_session_id e.0 ≡ true
  pub few_obs : length e.1.obs ≤ max_obs_per_session

-- The cap, when there is one.
abbrev Fits : ℤ → Sessions → Type 0
Fits max m = (leb_ℤ max (pos 0) || leb_ℤ (pos (length m)) max) ≡ true

pub record IsValid (st : Store) : Type 0 where
  pub distinct : Distinct st.sessions
  pub entries : All IsEntry st.sessions
  pub bounded : Fits st.max st.sessions

pub new_store-IsValid : (ttl max : ℤ) → IsValid (new_store ttl max)
unfolding new_store
new_store-IsValid ttl max = record { distinct = tt; entries = tt; bounded = ground arith }

-- The sweep leaves the configuration alone.
pub evict_expired-config :
    (now : ℕ) (st : Store)
    → ((evict_expired now st).ttl ≡ st.ttl) × ((evict_expired now st).max ≡ st.max)
unfolding evict_expired
evict_expired-config now st = ground arith

evict_expired-IsValid : (now : ℕ) {st : Store} → IsValid st → IsValid (evict_expired now st)
unfolding evict_expired
evict_expired-IsValid now {st} v = elim (Bool-cases (leb_ℤ st.ttl (pos 0))) [
  | inl never ↦ rw never v
  | inr some_ttl ↦ rw some_ttl (record {
    distinct = drop_expired-Distinct st.ttl now st.sessions v.distinct;
    entries = All-drop_expired IsEntry st.ttl now st.sessions v.entries;
    bounded = ground (arith, v.bounded, length-drop_expired-le st.ttl now st.sessions);
  })
]

erase-IsValid :
    (id : Bytes) {st : Store} → IsValid st → IsValid (record st { sessions = erase id st.sessions })
erase-IsValid id {st} v = record {
  distinct = erase-Distinct id st.sessions v.distinct;
  entries = All-erase IsEntry id st.sessions v.entries;
  bounded = ground (arith, v.bounded, length-erase-le id st.sessions);
}

evict_oldest-IsValid : {st : Store} → IsValid st → IsValid (evict_oldest st)
unfolding evict_oldest
evict_oldest-IsValid {st} v = elim (Option-cases (oldest st.sessions)) [
  | inl e ↦ rw (e, without_oldest) v
  | inr (id, e) ↦ rw (e, without_oldest) (erase-IsValid id v)
]

make_room-IsValid : (now : ℕ) {st : Store} → IsValid st → IsValid (make_room now st)
unfolding make_room
make_room-IsValid now {st} v =
    let swept = evict_expired-IsValid now v in ground (arith, swept, evict_oldest-IsValid swept)

pub without_oldest-erase :
    (m : Sessions) {id : Bytes} → oldest m ≡ some id → without_oldest m ≡ erase id m
unfolding without_oldest
without_oldest-erase m chosen = rw (chosen, without_oldest)

-- The eviction of the oldest session removes one.
length-without_oldest :
    (m : Sessions) → Distinct m → 0 < length m → suc (length (without_oldest m)) ≡ length m
length-without_oldest [] d h = absurd (omega arith)
length-without_oldest (e ∷ m) d h =
    let (id, chosen, o) = oldest-IsOldest e m d in
    rw (without_oldest-erase (e ∷ m) chosen) (length-erase id o.entry (e ∷ m) d o.held)

-- Behind `make_room` one more session fits.
make_room-Fits :
    (now : ℕ) (st : Store)
    → IsValid st
    → ltb_ℤ (pos 0) st.max ≡ true
    → ltb_ℤ (pos (length (make_room now st).sessions)) st.max ≡ true
unfolding make_room evict_oldest is_full
make_room-Fits now st v h =
    let swept = evict_expired-IsValid now v in
    let (_, same_max) = evict_expired-config now st in
    ground (
      arith,
      same_max,
      v.bounded,
      swept.bounded,
      length-without_oldest (evict_expired now st).sessions swept.distinct,
    )

push_obs-few :
    (o : Obs) (s : Session)
    → length s.obs ≤ max_obs_per_session
    → length (push_obs o s).obs ≤ max_obs_per_session
unfolding push_obs
push_obs-few o s h = ground (arith, length-append s.obs (o ∷ []))

push_obs-IsEntry : (o : Obs) (k : Bytes) (s : Session) → IsEntry (k, s) → IsEntry (k, push_obs o s)
unfolding push_obs
push_obs-IsEntry o k s e = record {
  same_id = ground (arith, e.same_id);
  valid_id = e.valid_id;
  few_obs = push_obs-few o s e.few_obs;
}

insert-IsValid :
    (k : Bytes) (s : Session) {st : Store}
    → IsEntry (k, s)
    → Fits st.max (insert k s st.sessions)
    → IsValid st
    → IsValid (record st { sessions = insert k s st.sessions })
insert-IsValid k s {st} e fits v = record {
  distinct = insert-Distinct k s st.sessions v.distinct;
  entries = All-insert IsEntry k s st.sessions e v.entries;
  bounded = fits;
}

pub make_room-config :
    (now : ℕ) (st : Store) → ((make_room now st).ttl ≡ st.ttl) × ((make_room now st).max ≡ st.max)
unfolding make_room evict_oldest evict_expired
make_room-config now st = ground arith

length-insert-le : (k : Bytes) (s : Session) (m : Sessions) → length (insert k s m) ≤ suc (length m)
length-insert-le k s m = elim (Option-cases (lookup k m)) [
  | inl absent ↦ omega (arith, length-insert_new k s m absent)
  | inr (t, held) ↦ omega (arith, length-insert_old k s t m held)
]

append_valid-IsValid :
    (now : ℕ) (session : Bytes) (o : Obs) {st : Store}
    → valid_session_id session ≡ true
    → IsValid st
    → IsValid (append_valid now session o st)
unfolding append_valid
append_valid-IsValid now session o {st} ok v = elim (Option-cases (lookup session st.sessions)) [
  | inr (s, held) ↦
      rw (held, append_valid)
        (insert-IsValid session (push_obs o s)
          (push_obs-IsEntry o session s (All-lookup IsEntry session s st.sessions v.entries held))
          (ground (arith, v.bounded, length-insert_old session (push_obs o s) s st.sessions held))
          v)
  | inl absent ↦
      let fresh : Session = record { id = session; created = now; obs = [] } in
      let room = make_room-IsValid now v in
      let (_, same_max) = make_room-config now st in
      rw (absent, append_valid)
        (insert-IsValid session (push_obs o fresh)
          (push_obs-IsEntry o session fresh
            (record { same_id = refl; valid_id = ok; few_obs = omega arith }))
          (ground (
            arith,
            same_max,
            room.bounded,
            make_room-Fits now st v,
            length-insert-le session (push_obs o fresh) (make_room now st).sessions,
          ))
          room)
]

-- `Append` keeps the invariant, for every clock, identifier and observation: distinct keys that are
-- valid identifiers, at most 4096 observations a session, at most the cap of sessions.
pub append-IsValid :
    (now : ℕ) (session : Bytes) (o : Obs) (st : Store)
    → IsValid st
    → IsValid (append now session o st).0
unfolding append
append-IsValid now session o st v = elim (Bool-cases (valid_session_id session)) [
  | inl ok ↦ rw ok (append_valid-IsValid now session o ok v)
  | inr bad ↦ rw bad v
]

-- `Get` keeps the invariant, also where it deletes the expired session that it finds.
pub get-IsValid : (now : ℕ) (id : Bytes) (st : Store) → IsValid st → IsValid (get now id st).0
unfolding get
get-IsValid now id st v = ground (arith, v, erase-IsValid id v)

-- `GC` keeps the invariant.
pub gc-IsValid : (now : ℕ) (st : Store) → IsValid st → IsValid (gc now st)
unfolding gc
gc-IsValid now st v = evict_expired-IsValid now v
