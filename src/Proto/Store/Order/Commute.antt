-- ===== src/Proto/Store/Order/Commute.antt =====
-- The registry as a map without an order, and calls of `Append` that may be exchanged.
use mathlib.Core.Quot
use mathlib.Core.Quot.{Quot}
use netsee.Prelude.{
  Bool, Bool-cases, Option, Option-cases, [], arith, false, if◌then◌else◌, inl, inr, length, refl,
  some, suc, sym, true, ℕ, ◌||◌, ◌∙◌, ◌≡◌, ◌≢◌,
}
use netsee.Prelude.Dict.{length-insert_new, length-insert_old, lookup, lookup-insert}
use netsee.Prelude.Int.{leb_ℤ, ltb_ℤ, pos}
use netsee.Prelude.Text.{Bytes, beq_ne, bytes_beq, bytes_beq_iff, bytes_eq}
use netsee.Proto.SessionId.{valid_session_id}
use netsee.Proto.Store.{Session, Store, append, append_valid, is_full, make_room, push_obs}
use netsee.Proto.Store.Bounds.{IsValid, append-IsValid, make_room-config}
use netsee.Proto.Store.Contents.{append-ttl, base_session}
use netsee.Proto.Store.Order.{Agree, SameMap}
use netsee.Proto.Types.{Obs}

-- The registry, with the order of its entries forgotten.
pub Registry : Type 0
Registry = Quot Agree

pub registry : Store → Registry
unfolding Registry
registry = Quot.mk

Agree-registry : {s t : Store} → Agree s t → registry s ≡ registry t
unfolding registry Registry
Agree-registry a = Quot.sound a

-- A session more fits behind another one, so that no eviction is due.
unfoldable pub has_room : Store → Bool
has_room s = leb_ℤ s.max (pos 0) || ltb_ℤ (pos (suc (length s.sessions))) s.max

room-not_full : (s : Store) → has_room s ≡ true → is_full s ≡ false
unfolding has_room is_full
room-not_full s h = ground (arith, h)

-- Where no eviction is due an `Append` changes its own session alone.
lookup-append_room :
    (now : ℕ) (id k : Bytes) (o : Obs) (s : Store)
    → is_full s ≡ false
    → lookup k (append_valid now id o s).sessions ≡ (
        if bytes_beq id k
        then some (push_obs o (base_session now id (lookup id s.sessions)))
        else lookup k s.sessions)
unfolding append_valid make_room
lookup-append_room now id k o s room = elim (Option-cases (lookup id s.sessions)) [
  | inl absent ↦ rw (append_valid, absent, make_room, room) (lookup-insert id k _ s.sessions)
  | inr (x, held) ↦ rw (append_valid, held) (lookup-insert id k _ s.sessions)
]

append_valid-not_full :
    (now : ℕ) (id : Bytes) (o : Obs) (s : Store)
    → has_room s ≡ true
    → is_full (append_valid now id o s) ≡ false
unfolding append_valid make_room has_room is_full
append_valid-not_full now id o s h = elim (Option-cases (lookup id s.sessions)) [
  | inl absent ↦
      let fresh : Session = record { id = id; created = now; obs = [] } in
      rw (append_valid, absent, make_room, room-not_full s h)
        (ground (arith, h, length-insert_new id (push_obs o fresh) s.sessions absent))
  | inr (x, held) ↦
      rw (append_valid, held)
        (ground (arith, h, length-insert_old id (push_obs o x) x s.sessions held))
]

-- Two calls one after the other.
lookup-append_twice :
    (now now' : ℕ) (id id' k : Bytes) (o o' : Obs) (s : Store)
    → has_room s ≡ true
    → bytes_beq id id' ≡ false
    → lookup k (append_valid now' id' o' (append_valid now id o s)).sessions ≡ (
        if bytes_beq id' k
        then some (push_obs o' (base_session now' id' (lookup id' s.sessions)))
        else if bytes_beq id k
        then some (push_obs o (base_session now id (lookup id s.sessions)))
        else lookup k s.sessions)
lookup-append_twice now now' id id' k o o' s room other =
    let full = room-not_full s room in
    let own : lookup id' (append_valid now id o s).sessions ≡ lookup id' s.sessions =
      rw other at (lookup-append_room now id id' o s full) in
    rw
      (
        lookup-append_room now' id' k o' (append_valid now id o s)
            (append_valid-not_full now id o s room),
        own,
        lookup-append_room now id k o s full,
      )
      refl

append-max : (now : ℕ) (id : Bytes) (o : Obs) (s : Store) → (append now id o s).0.max ≡ s.max
unfolding append append_valid
append-max now id o s = ground (arith, make_room-config now s)

exchanged :
    (k id id' : Bytes) (a b c : Option Session)
    → id ≢ id'
    → (if bytes_beq id' k then a else if bytes_beq id k then b else c)
      ≡ (if bytes_beq id k then b else if bytes_beq id' k then a else c)
exchanged k id id' a b c ne = elim (Bool-cases (bytes_beq id k)) [
  | inr away ↦ rw away refl
  | inl here ↦
      let e : id ≡ k = (bytes_beq_iff id k).0 here in
      rw (here, beq_ne id' k (λ e'. ne (e ∙ sym e'))) refl
]

append_twice-map :
    (now now' : ℕ) (id id' : Bytes) (o o' : Obs) (s : Store)
    → has_room s ≡ true
    → id ≢ id'
    → SameMap
        (append now' id' o' (append now id o s).0).0.sessions
        (append now id o (append now' id' o' s).0).0.sessions
unfolding append
append_twice-map now now' id id' o o' s room ne k = elim (Bool-cases (valid_session_id id)) [
  | inr bad ↦ rw bad refl
  | inl ok ↦ elim (Bool-cases (valid_session_id id')) [
    | inr bad ↦ rw (ok, bad) refl
    | inl ok' ↦
        rw (ok, ok')
          (lookup-append_twice now now' id id' k o o' s room (beq_ne id id' ne)
            ∙ exchanged k id id' _ _ _ ne
            ∙ sym (
                lookup-append_twice now' now id' id k o' o s room
                  (beq_ne id' id (λ e. ne (sym e)))))
  ]
]

-- The order in which two calls of `Append` come under different ids does not matter: the registry
-- holds the same sessions, as long as no eviction is due.
pub append-exchange :
    (now now' : ℕ) (id id' : Bytes) (o o' : Obs) (s : Store)
    → IsValid s
    → has_room s ≡ true
    → id ≢ id'
    → registry (append now' id' o' (append now id o s).0).0
      ≡ registry (append now id o (append now' id' o' s).0).0
append-exchange now now' id id' o o' s v room ne =
    let first = append now id o s in
    let second = append now' id' o' s in
    Agree-registry (record {
      same_ttl =
          append-ttl now' id' o' first.0
          ∙ append-ttl now id o s
          ∙ sym (append-ttl now id o second.0 ∙ append-ttl now' id' o' s);
      same_max =
          append-max now' id' o' first.0
          ∙ append-max now id o s
          ∙ sym (append-max now id o second.0 ∙ append-max now' id' o' s);
      same_map = append_twice-map now now' id id' o o' s room ne;
      distinct = (append-IsValid now' id' o' first.0 (append-IsValid now id o s v)).distinct;
      distinct' = (append-IsValid now id o second.0 (append-IsValid now' id' o' s v)).distinct;
    })
