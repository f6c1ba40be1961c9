-- ===== src/Proto/Store/Ages.antt =====
-- When the sessions of a registry were created.
use netsee.Prelude.{
  All, Bool-cases, List, Option-cases, [], arith, false, inl, inr, length, suc, ℕ, ◌&&◌, ◌+◌, ◌∷◌,
  ◌≡◌, ◌≤◌,
}
use netsee.Prelude.Dict.{All-erase, All-insert, All-lookup, lookup}
use netsee.Prelude.Int.{leb_ℤ, ltb_ℤ, pos}
use netsee.Prelude.Text.{Bytes, bytes_eq}
use netsee.Proto.SessionId.{valid_session_id}
use netsee.Proto.Store.{
  Session, Store, append, append_valid, drop_expired, evict_expired, evict_oldest, gc, get,
  is_expired, is_full, make_room, oldest, push_obs, without_oldest,
}
use netsee.Proto.Store.Evict.{All-drop_expired}
use netsee.Proto.Types.{Obs}

module _ (P : ℕ → Type 0) where
  -- Every session was created at a time with the property.
  abbrev pub Created : Store → Type 0
  Created st = All (λ e. P e.1.created) st.sessions

  evict_expired-Created : (now : ℕ) (st : Store) → Created st → Created (evict_expired now st)
  unfolding evict_expired
  evict_expired-Created now st h = elim (Bool-cases (leb_ℤ st.ttl (pos 0))) [
    | inl off ↦ rw (evict_expired, off) h
    | inr on ↦
        rw (evict_expired, on) (All-drop_expired (λ e. P e.1.created) st.ttl now st.sessions h)
  ]

  pub get-Created : (now : ℕ) (id : Bytes) (st : Store) → Created st → Created (get now id st).0
  unfolding get
  get-Created now id st h = elim (Bool-cases (valid_session_id id)) [
    | inr bad ↦ rw (get, bad) h
    | inl ok ↦ elim (Option-cases (lookup id st.sessions)) [
      | inl absent ↦ rw (get, ok, absent) h
      | inr (s, held) ↦ elim (Bool-cases (ltb_ℤ (pos 0) st.ttl && is_expired st.ttl now s)) [
        | inl old ↦ rw (get, ok, held, old) (All-erase (λ e. P e.1.created) id st.sessions h)
        | inr live ↦ rw (get, ok, held, live) h
      ]
    ]
  ]

  evict_oldest-Created : (st : Store) → Created st → Created (evict_oldest st)
  unfolding evict_oldest without_oldest
  evict_oldest-Created st h = elim (Option-cases (oldest st.sessions)) [
    | inl empty ↦ rw (evict_oldest, without_oldest, empty) h
    | inr (id, found) ↦
        rw (evict_oldest, without_oldest, found) (All-erase (λ e. P e.1.created) id st.sessions h)
  ]

  make_room-Created : (now : ℕ) (st : Store) → Created st → Created (make_room now st)
  unfolding make_room
  make_room-Created now st h =
      let swept = evict_expired-Created now st h in
      let st' = evict_expired now st in
      elim (Bool-cases (is_full st)) [
        | inr room ↦ rw (make_room, room) h
        | inl full ↦ elim (Bool-cases (leb_ℤ st'.max (pos (length st'.sessions)))) [
          | inl still ↦ rw (make_room, full, still) (evict_oldest-Created st' swept)
          | inr less ↦ rw (make_room, full, less) swept
        ]
      ]

  push_obs-created : (o : Obs) (s : Session) → (push_obs o s).created ≡ s.created
  unfolding push_obs
  push_obs-created o s = ground arith

  append_valid-Created :
      (now : ℕ) (id : Bytes) (o : Obs) (st : Store)
      → P now
      → Created st
      → Created (append_valid now id o st)
  unfolding append_valid
  append_valid-Created now id o st at_now h = elim (Option-cases (lookup id st.sessions)) [
    | inr (s, held) ↦
        let old : P s.created = All-lookup (λ e. P e.1.created) id s st.sessions h held in
        rw (append_valid, held)
          (All-insert (λ e. P e.1.created) id (push_obs o s) st.sessions (rw push_obs-created old)
            h)
    | inl absent ↦
        let fresh : Session = record { id = id; created = now; obs = [] } in
        rw (append_valid, absent)
          (All-insert (λ e. P e.1.created) id (push_obs o fresh) _ (rw push_obs-created at_now)
            (make_room-Created now st h))
  ]

  -- A session that `Append` creates is created at the time of the call.
  pub append-Created :
      (now : ℕ) (id : Bytes) (o : Obs) (st : Store)
      → P now
      → Created st
      → Created (append now id o st).0
  unfolding append
  append-Created now id o st at_now h = elim (Bool-cases (valid_session_id id)) [
    | inl ok ↦ rw (append, ok) (append_valid-Created now id o st at_now h)
    | inr bad ↦ rw (append, bad) h
  ]

live-IsRecent :
    (ttl now : ℕ) (s : Session) → is_expired (pos ttl) now s ≡ false → now ≤ s.created + ttl
unfolding is_expired
live-IsRecent ttl now s live = ground (arith, live)

-- What `evictExpiredLocked` leaves was created within the time to live.
drop_expired-Created :
    (ttl now : ℕ) (m : List (Bytes × Session))
    → All (λ e. now ≤ e.1.created + ttl) (drop_expired (pos ttl) now m)
unfolding drop_expired
drop_expired-Created ttl now [] = tt
drop_expired-Created ttl now ((id, s) ∷ m) = elim (Bool-cases (is_expired (pos ttl) now s)) [
  | inl old ↦ rw (drop_expired, old) (drop_expired-Created ttl now m)
  | inr live ↦
      rw (drop_expired, live) (live-IsRecent ttl now s live, drop_expired-Created ttl now m)
]

pub gc-IsRecent :
    (ttl now : ℕ) (st : Store)
    → st.ttl ≡ pos (suc ttl)
    → Created (λ c. now ≤ c + suc ttl) (gc now st)
unfolding gc evict_expired
gc-IsRecent ttl now st is_ttl =
    let on : leb_ℤ st.ttl (pos 0) ≡ false = rw is_ttl (ground arith) in
    rw (gc, evict_expired, on) (rw is_ttl (drop_expired-Created (suc ttl) now st.sessions))
