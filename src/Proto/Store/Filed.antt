-- ===== src/Proto/Store/Filed.antt =====
-- Each observation stands under the session that it names.
use netsee.Prelude.{
  All, All-append, Bool-cases, Option-cases, [], arith, inl, inr, some, true, ℕ, ◌∷◌, ◌≡◌,
}
use netsee.Prelude.Dict.{All-erase, All-insert, All-lookup, lookup}
use netsee.Prelude.Int.{leb_ℤ, pos, ℤ}
use netsee.Prelude.Text.{Bytes, bytes_eq}
use netsee.Proto.SessionId.{valid_session_id}
use netsee.Proto.Store.{
  Session, Store, append, append_valid, evict_expired, evict_oldest, gc, get, make_room, new_store,
  oldest, push_obs, without_oldest,
}
use netsee.Proto.Store.Evict.{All-drop_expired}
use netsee.Proto.Store.Runs.{Reach, Step, append_step, at_start, gc_step, get_step, next}
use netsee.Proto.Types.{Obs}

abbrev pub NamesSession : Bytes → Obs → Type 0
NamesSession id o = o.session ≡ id

abbrev pub IsFiled : Bytes × Session → Type 0
IsFiled e = All (NamesSession e.0) e.1.obs

abbrev pub AllFiled : Store → Type 0
AllFiled st = All IsFiled st.sessions

push_obs-IsFiled :
    (o : Obs) (id : Bytes) (s : Session)
    → NamesSession id o
    → IsFiled (id, s)
    → IsFiled (id, push_obs o s)
unfolding push_obs
push_obs-IsFiled o id s n h =
    let more_obs = All-append (NamesSession id) s.obs (o ∷ []) h (n, tt) in
    ground (arith, h, more_obs)

evict_expired-AllFiled : (now : ℕ) (st : Store) → AllFiled st → AllFiled (evict_expired now st)
unfolding evict_expired
evict_expired-AllFiled now st h = elim (Bool-cases (leb_ℤ st.ttl (pos 0))) [
  | inl never ↦ rw never h
  | inr some_ttl ↦ rw some_ttl (All-drop_expired IsFiled st.ttl now st.sessions h)
]

evict_oldest-AllFiled : (st : Store) → AllFiled st → AllFiled (evict_oldest st)
unfolding evict_oldest
evict_oldest-AllFiled st h = elim (Option-cases (oldest st.sessions)) [
  | inl e ↦ rw (e, without_oldest) h
  | inr (id, e) ↦ rw (e, without_oldest) (All-erase IsFiled id st.sessions h)
]

make_room-AllFiled : (now : ℕ) (st : Store) → AllFiled st → AllFiled (make_room now st)
unfolding make_room
make_room-AllFiled now st h =
    let swept = evict_expired-AllFiled now st h in
    let evicted = evict_oldest-AllFiled (evict_expired now st) swept in
    ground (arith, h, swept, evicted)

append_valid-AllFiled :
    (now : ℕ) (id : Bytes) (o : Obs) (st : Store)
    → NamesSession id o
    → AllFiled st
    → AllFiled (append_valid now id o st)
unfolding append_valid
append_valid-AllFiled now id o st n h = elim (Option-cases (lookup id st.sessions)) [
  | inr (s, held) ↦
      rw (held, append_valid)
        (All-insert IsFiled id (push_obs o s) st.sessions
          (push_obs-IsFiled o id s n (All-lookup IsFiled id s st.sessions h held)) h)
  | inl absent ↦
      let fresh : Session = record { id = id; created = now; obs = [] } in
      rw (absent, append_valid)
        (All-insert IsFiled id (push_obs o fresh) (make_room now st).sessions
          (push_obs-IsFiled o id fresh n tt) (make_room-AllFiled now st h))
]

Step-AllFiled : {t u : Store} → Step t u → AllFiled t → AllFiled u
unfolding append get gc
Step-AllFiled (append_step now id o st n) h = elim (Bool-cases (valid_session_id id)) [
  | inl ok ↦ rw ok (append_valid-AllFiled now id o st n h)
  | inr bad ↦ rw bad h
]
Step-AllFiled (get_step now id st) h =
    let erased = All-erase IsFiled id st.sessions h in ground (arith, h, erased)
Step-AllFiled (gc_step now st) h = evict_expired-AllFiled now st h

pub Reach-AllFiled : {s t : Store} → AllFiled s → Reach s t → AllFiled t
Reach-AllFiled h at_start = h
Reach-AllFiled h (next r step) = Step-AllFiled step (Reach-AllFiled h r)

pub new_store-AllFiled : (ttl max : ℤ) → AllFiled (new_store ttl max)
unfolding new_store
new_store-AllFiled ttl max = tt

-- What a read gives is what is held under a valid identifier.
pub get-held :
    (now : ℕ) (id : Bytes) (st : Store) (s : Session)
    → (get now id st).1 ≡ some s
    → (valid_session_id id ≡ true) × (lookup id st.sessions ≡ some s)
unfolding get
get-held now id st s h = (ground (arith, h), ground (arith, h))
