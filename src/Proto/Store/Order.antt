-- ===== src/Proto/Store/Order.antt =====
-- The registry does not depend on the order in which Go walks its map, as long as no two sessions
-- were created at the same time.
pub mod Calls
pub mod Timely
pub mod Replies
pub mod Commute
mod Tests
use netsee.Prelude.{
  Bool-cases, Option-cases, [], ap, arith, false, inl, inr, length, none, refl, some, sym, true, ℕ,
  ◌∙◌, ◌∷◌, ◌≡◌, ◌≤◌,
}
use netsee.Prelude.Dict.{
  All-lookup, Distinct, erase, erase-Distinct, insert, insert-Distinct, length-erase, lookup,
  lookup-erase, lookup-insert,
}
use netsee.Prelude.Int.{leb_ℤ, pos}
use netsee.Prelude.Text.{Bytes, bytes_beq_iff, bytes_eq}
use netsee.Proto.Store.{
  Session, Store, append_valid, evict_expired, evict_oldest, get, is_full, make_room, oldest,
  without_oldest,
}
use netsee.Proto.Store.Bounds.{without_oldest-erase}
use netsee.Proto.Store.Contents.{evict_expired-KeptOrGone}
use netsee.Proto.Store.Evict.{
  Sessions, drop_expired-Distinct, lookup-drop_expired, oldest-IsOldest, unexpired,
}
use netsee.Proto.Types.{Obs}

-- The two lists are one map.
abbrev pub SameMap : Sessions → Sessions → Type 0
SameMap m n = (k : Bytes) → lookup k m ≡ lookup k n

lookup_own : (k : Bytes) (s : Session) (m : Sessions) → lookup k ((k, s) ∷ m) ≡ some s
unfolding lookup
lookup_own k s m = rw ((bytes_beq_iff k k).1 refl)

-- Without its first entry.
SameMap-erase :
    (j : Bytes) (s : Session) (m n : Sessions)
    → lookup j m ≡ none
    → SameMap ((j, s) ∷ m) n
    → SameMap m (erase j n)
unfolding lookup
SameMap-erase j s m n absent h k = ground (arith, bytes_beq_iff j k, lookup-erase j k n, h k)

length-SameMap : (m n : Sessions) → Distinct m → Distinct n → SameMap m n → length m ≡ length n
length-SameMap [] [] d d' h = refl
length-SameMap [] ((k, s) ∷ n) d d' h =
    let own = lookup_own k s n in let there = h k in unfold lookup in cc
length-SameMap ((j, s) ∷ m) n d d' h =
    let held : lookup j n ≡ some s = sym (h j) ∙ lookup_own j s m in
    let shorter =
      length-SameMap m (erase j n) d.1 (erase-Distinct j n d') (SameMap-erase j s m n d.0 h) in
    ground (arith, shorter, length-erase j s n d' held)

-- The stores hold the same sessions, under the same configuration.
pub record Agree (s t : Store) : Type 0 where
  pub same_ttl : s.ttl ≡ t.ttl
  pub same_max : s.max ≡ t.max
  pub same_map : SameMap s.sessions t.sessions
  pub distinct : Distinct s.sessions
  pub distinct' : Distinct t.sessions

-- No two sessions were created at the same time.
abbrev pub NoTies : Sessions → Type 0
NoTies m =
    (j k : Bytes) (a b : Session)
    → lookup j m ≡ some a
    → lookup k m ≡ some b
    → a.created ≡ b.created
    → j ≡ k

pub evict_expired-Agree :
    (now : ℕ) {s t : Store} → Agree s t → Agree (evict_expired now s) (evict_expired now t)
unfolding evict_expired
evict_expired-Agree now {s} {t} a = elim (Bool-cases (leb_ℤ s.ttl (pos 0))) [
  | inl off ↦ let off' : leb_ℤ t.ttl (pos 0) ≡ true = rw a.same_ttl at off in rw (off, off') a
  | inr on ↦
      let on' : leb_ℤ t.ttl (pos 0) ≡ false = rw a.same_ttl at on in
      rw (on, on')
        (record {
          same_ttl = a.same_ttl;
          same_max = a.same_max;
          same_map = λ k.
              lookup-drop_expired s.ttl now k s.sessions a.distinct
              ∙ ap (λ o. unexpired s.ttl now o) (a.same_map k)
              ∙ ap (λ ttl. unexpired ttl now (lookup k t.sessions)) a.same_ttl
              ∙ sym (lookup-drop_expired t.ttl now k t.sessions a.distinct');
          distinct = drop_expired-Distinct s.ttl now s.sessions a.distinct;
          distinct' = drop_expired-Distinct t.ttl now t.sessions a.distinct';
        })
]

-- A sweep brings in no ties.
evict_expired-NoTies :
    (now : ℕ) (s : Store)
    → Distinct s.sessions
    → NoTies s.sessions
    → NoTies (evict_expired now s).sessions
evict_expired-NoTies now s d free j k a b h h' e =
    free j k a b (held_before j a h) (held_before k b h') e
  where
    held_before :
        (i : Bytes) (c : Session)
        → lookup i (evict_expired now s).sessions ≡ some c
        → lookup i s.sessions ≡ some c
    held_before i c g = ground (arith, g, evict_expired-KeptOrGone now i s d)

insert-Agree :
    (k : Bytes) (o : Session) {s t : Store}
    → Agree s t
    → Agree
        (record s { sessions = insert k o s.sessions })
        (record t { sessions = insert k o t.sessions })
insert-Agree k o {s} {t} a = record {
  same_ttl = a.same_ttl;
  same_max = a.same_max;
  same_map =
      λ j. rw (lookup-insert k j o s.sessions, lookup-insert k j o t.sessions, a.same_map j) refl;
  distinct = insert-Distinct k o s.sessions a.distinct;
  distinct' = insert-Distinct k o t.sessions a.distinct';
}

erase-Agree :
    (k : Bytes) {s t : Store}
    → Agree s t
    → Agree
        (record s { sessions = erase k s.sessions })
        (record t { sessions = erase k t.sessions })
erase-Agree k {s} {t} a = record {
  same_ttl = a.same_ttl;
  same_max = a.same_max;
  same_map = λ j. rw (lookup-erase k j s.sessions, lookup-erase k j t.sessions, a.same_map j) refl;
  distinct = erase-Distinct k s.sessions a.distinct;
  distinct' = erase-Distinct k t.sessions a.distinct';
}

-- The oldest session is the same one.
oldest-Agree :
    (m n : Sessions) → Distinct m → Distinct n → SameMap m n → NoTies m → oldest m ≡ oldest n
oldest-Agree [] [] d d' h free = refl
oldest-Agree [] (e ∷ n) d d' h free = absurd (omega (arith, length-SameMap [] (e ∷ n) d d' h))
oldest-Agree (e ∷ m) [] d d' h free = absurd (omega (arith, length-SameMap (e ∷ m) [] d d' h))
oldest-Agree (e ∷ m) (f ∷ n) d d' h free =
    let (id, chosen, o) = oldest-IsOldest e m d in
    let (id', chosen', o') = oldest-IsOldest f n d' in
    let held' : lookup id' (e ∷ m) ≡ some o'.entry = h id' ∙ o'.held in
    let held : lookup id (f ∷ n) ≡ some o.entry = sym (h id) ∙ o.held in
    let le = All-lookup (λ x. o.entry.created ≤ x.1.created) id' o'.entry (e ∷ m) o.least held' in
    let ge = All-lookup (λ x. o'.entry.created ≤ x.1.created) id o.entry (f ∷ n) o'.least held in
    let same : id ≡ id' = free id id' o.entry o'.entry o.held held' (omega (arith, le, ge)) in
    chosen ∙ ap (λ i. some i) same ∙ sym chosen'

evict_oldest-Agree :
    {s t : Store} → Agree s t → NoTies s.sessions → Agree (evict_oldest s) (evict_oldest t)
unfolding evict_oldest
evict_oldest-Agree {s} {t} a free =
    let same = oldest-Agree s.sessions t.sessions a.distinct a.distinct' a.same_map free in
    elim (Option-cases (oldest s.sessions)) [
      | inl empty ↦ rw (without_oldest, empty, (sym same ∙ empty)) a
      | inr (id, chosen) ↦
          rw
            (
              without_oldest-erase s.sessions chosen,
              without_oldest-erase t.sessions (sym same ∙ chosen),
            )
            (erase-Agree id a)
    ]

pub length-Agree : {s t : Store} → Agree s t → length s.sessions ≡ length t.sessions
length-Agree {s} {t} a = length-SameMap s.sessions t.sessions a.distinct a.distinct' a.same_map

make_room-Agree :
    (now : ℕ) {s t : Store}
    → Agree s t
    → NoTies s.sessions
    → Agree (make_room now s) (make_room now t)
unfolding make_room is_full
make_room-Agree now {s} {t} a free =
    let swept = evict_expired-Agree now a in
    let rested = evict_oldest-Agree swept (evict_expired-NoTies now s a.distinct free) in
    ground (arith, a, swept, rested, a.same_max, swept.same_max, length-Agree a, length-Agree swept)

pub append_valid-Agree :
    (now : ℕ) (id : Bytes) (o : Obs) {s t : Store}
    → Agree s t
    → NoTies s.sessions
    → Agree (append_valid now id o s) (append_valid now id o t)
unfolding append_valid
append_valid-Agree now id o {s} {t} a free = elim (Option-cases (lookup id s.sessions)) [
  | inl absent ↦
      rw (append_valid, absent, (sym (a.same_map id) ∙ absent))
        (insert-Agree id _ (make_room-Agree now a free))
  | inr (x, held) ↦ rw (append_valid, held, (sym (a.same_map id) ∙ held)) (insert-Agree id _ a)
]

pub get-Agree :
    (now : ℕ) (id : Bytes) {s t : Store}
    → Agree s t
    → ((get now id s).1 ≡ (get now id t).1) × Agree (get now id s).0 (get now id t).0
unfolding get
get-Agree now id {s} {t} a = ground (arith, a, erase-Agree id a, a.same_map id, a.same_ttl)
