-- ===== src/Proto/Store/Contents.antt =====
-- What readers of the registry see after each method.
use netsee.Prelude.{
  Option, Option-cases, [], arith, false, if◌then◌else◌, inl, inr, length, none, refl, some, true,
  ℕ, ◌&&◌, ◌++◌, ◌<◌, ◌∷◌, ◌≡◌, ◌≢◌, ◌⊎◌,
}
use netsee.Prelude.Dict.{Distinct, lookup, lookup-erase, lookup-insert}
use netsee.Prelude.Int.{leb_ℤ, ltb_ℤ, pos}
use netsee.Prelude.Text.{Bytes, bytes_beq_iff, bytes_eq}
use netsee.Proto.SessionId.{valid_session_id}
use netsee.Proto.Store.{
  Session, Store, append, append_valid, evict_expired, evict_oldest, gc, get, is_expired, make_room,
  max_obs_per_session, oldest, push_obs, without_oldest,
}
use netsee.Proto.Store.Bounds.{
  IsValid, evict_expired-config, make_room-config, without_oldest-erase,
}
use netsee.Proto.Store.Evict.{Sessions, lookup-drop_expired, unexpired}
use netsee.Proto.Types.{Obs}

-- The session that an `Append` extends: the one that is held, or a new one.
abbrev pub base_session : ℕ → Bytes → Option Session → Session
base_session now id none = record { id = id; created = now; obs = [] }
base_session now id (some s) = s

-- An entry is as before, or gone.
abbrev pub KeptOrGone : Option Session → Option Session → Type 0
KeptOrGone before after = (after ≡ before) ⊎ (after ≡ none)

pub evict_expired-KeptOrGone :
    (now : ℕ) (k : Bytes) (st : Store)
    → Distinct st.sessions
    → KeptOrGone (lookup k st.sessions) (lookup k (evict_expired now st).sessions)
unfolding evict_expired
evict_expired-KeptOrGone now k st d = ground (arith, lookup-drop_expired st.ttl now k st.sessions d)

without_oldest-KeptOrGone :
    (k : Bytes) (m : Sessions) → KeptOrGone (lookup k m) (lookup k (without_oldest m))
unfolding without_oldest lookup
without_oldest-KeptOrGone k m = elim (Option-cases (oldest m)) [
  | inl nothing ↦ inl (rw (nothing, without_oldest))
  | inr (id, chosen) ↦ rw (without_oldest-erase m chosen) (ground (arith, lookup-erase id k m))
]

make_room-KeptOrGone :
    (now : ℕ) (k : Bytes) (st : Store)
    → Distinct st.sessions
    → KeptOrGone (lookup k st.sessions) (lookup k (make_room now st).sessions)
unfolding make_room evict_oldest
make_room-KeptOrGone now k st d = ground (
  arith,
  evict_expired-KeptOrGone now k st d,
  without_oldest-KeptOrGone k (evict_expired now st).sessions,
)

pub lookup-append_valid :
    (now : ℕ) (id k : Bytes) (o : Obs) (st : Store)
    → Distinct st.sessions
    → (lookup id (append_valid now id o st).sessions
        ≡ some (push_obs o (base_session now id (lookup id st.sessions))))
      × (k ≢ id → KeptOrGone (lookup k st.sessions) (lookup k (append_valid now id o st).sessions))
unfolding append_valid
lookup-append_valid now id k o st d = (stored, λ other. untouched other)
  where
    fresh : Session
    fresh = record { id = id; created = now; obs = [] }

    stored :
        lookup id (append_valid now id o st).sessions
        ≡ some (push_obs o (base_session now id (lookup id st.sessions)))
    stored = elim (Option-cases (lookup id st.sessions)) [
      | inl absent ↦
          rw (absent, append_valid)
            (rw (
              lookup-insert id id (push_obs o fresh) (make_room now st).sessions,
              (bytes_beq_iff id id).1 refl,
            ))
      | inr (s, held) ↦
          rw (held, append_valid)
            (rw (lookup-insert id id (push_obs o s) st.sessions, (bytes_beq_iff id id).1 refl))
    ]

    untouched :
        k ≢ id → KeptOrGone (lookup k st.sessions) (lookup k (append_valid now id o st).sessions)
    untouched other = elim (Option-cases (lookup id st.sessions)) [
      | inl absent ↦
          rw (absent, append_valid)
            (ground (
              arith,
              bytes_beq_iff id k,
              lookup-insert id k (push_obs o fresh) (make_room now st).sessions,
              make_room-KeptOrGone now k st d,
            ))
      | inr (s, held) ↦
          rw (held, append_valid)
            (ground (arith, bytes_beq_iff id k, lookup-insert id k (push_obs o s) st.sessions))
    ]

lookup-append_own :
    (now : ℕ) (id : Bytes) (o : Obs) (st : Store)
    → valid_session_id id ≡ true
    → IsValid st
    → lookup id (append now id o st).0.sessions
      ≡ some (push_obs o (base_session now id (lookup id st.sessions)))
unfolding append
lookup-append_own now id o st ok v =
    let (own, _) = lookup-append_valid now id id o st v.distinct in rw ok own

-- On a valid registry, `Append` under a valid id extends that session or creates it. Any other
-- session is unchanged, or it was evicted.
pub lookup-append :
    (now : ℕ) (id k : Bytes) (o : Obs) (st : Store)
    → valid_session_id id ≡ true
    → IsValid st
    → k ≢ id
    → (lookup id (append now id o st).0.sessions
        ≡ some (push_obs o (base_session now id (lookup id st.sessions))))
      × KeptOrGone (lookup k st.sessions) (lookup k (append now id o st).0.sessions)
unfolding append
lookup-append now id k o st ok v other =
    let (own, others) = lookup-append_valid now id k o st v.distinct in rw ok (own, others other)

-- On a map with distinct keys, `GC` keeps exactly the sessions that have not expired, unchanged;
-- all of them if there is no expiry.
pub lookup-gc :
    (now : ℕ) (k : Bytes) (st : Store)
    → Distinct st.sessions
    → lookup k (gc now st).sessions ≡ (
        if leb_ℤ st.ttl (pos 0)
        then lookup k st.sessions
        else unexpired st.ttl now (lookup k st.sessions))
unfolding gc evict_expired
lookup-gc now k st d = ground (arith, lookup-drop_expired st.ttl now k st.sessions d)

pub gc-ttl : (now : ℕ) (st : Store) → (gc now st).ttl ≡ st.ttl
unfolding gc
gc-ttl now st = (evict_expired-config now st).0

-- On a map with distinct keys, a sweep changes no answer of `Get` at the same instant.
pub get-gc :
    (now : ℕ) (k : Bytes) (st : Store)
    → Distinct st.sessions
    → (get now k (gc now st)).1 ≡ (get now k st).1
unfolding get
get-gc now k st d = ground (arith, gc-ttl now st, lookup-gc now k st d)

pub get-ttl : (now : ℕ) (id : Bytes) (st : Store) → (get now id st).0.ttl ≡ st.ttl
unfolding get
get-ttl now id st = ground arith

pub append-ttl : (now : ℕ) (id : Bytes) (o : Obs) (st : Store) → (append now id o st).0.ttl ≡ st.ttl
unfolding append append_valid
append-ttl now id o st = ground (arith, make_room-config now st)

get-append_lem :
    (now later : ℕ) (id : Bytes) (o : Obs) (st : Store) (s : Session)
    → valid_session_id id ≡ true
    → length s.obs < max_obs_per_session
    → (ltb_ℤ (pos 0) st.ttl && is_expired st.ttl later s) ≡ false
    → lookup id (append now id o st).0.sessions ≡ some (push_obs o s)
    → (get later id (append now id o st).0).1 ≡ some (record s { obs = s.obs ++ (o ∷ []) })
unfolding get push_obs is_expired
get-append_lem now later id o st s ok room live stored = ground (arith, append-ttl now id o st)

-- What was appended under a valid id to a valid registry is read back: until the session expires
-- `Get` answers with the session, its new observation last, if the session held fewer
-- observations than the cap.
pub get-append :
    (now later : ℕ) (id : Bytes) (o : Obs) (st : Store)
    → valid_session_id id ≡ true
    → IsValid st
    → length (base_session now id (lookup id st.sessions)).obs < max_obs_per_session
    → (ltb_ℤ (pos 0) st.ttl
        && is_expired st.ttl later (base_session now id (lookup id st.sessions)))
      ≡ false
    → (get later id (append now id o st).0).1
      ≡ some (record (base_session now id (lookup id st.sessions)) {
        obs = (base_session now id (lookup id st.sessions)).obs ++ (o ∷ []);
      })
get-append now later id o st ok v room live =
    let stored = lookup-append_own now id o st ok v in
    get-append_lem now later id o st (base_session now id (lookup id st.sessions)) ok room live
      stored
