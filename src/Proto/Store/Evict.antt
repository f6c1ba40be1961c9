-- ===== src/Proto/Store/Evict.antt =====
-- What the two evictions remove, and what they keep.
use netsee.Prelude.{
  All, Bool-cases, List, Option, [], arith, if◌then◌else◌, inl, inr, length, ltb, none, refl, some,
  ℕ, ◌<◌, ◌∷◌, ◌≡◌, ◌≤◌, ◌⊎◌,
}
use netsee.Prelude.Dict.{Distinct, lookup}
use netsee.Prelude.Int.{ℤ}
use netsee.Prelude.Text.{Bytes, bytes_beq_iff, bytes_eq}
use netsee.Proto.Store.{Session, drop_expired, is_expired, oldest, oldest_from}

abbrev pub Sessions : Type 0
Sessions = List (Bytes × Session)

-- The entry that a sweep at `now` leaves of a lookup.
abbrev pub unexpired : ℤ → ℕ → Option Session → Option Session
unexpired ttl now none = none
unexpired ttl now (some s) = if is_expired ttl now s then none else some s

lookup-drop_expired_absent :
    (ttl : ℤ) (now : ℕ) (k : Bytes) (m : Sessions)
    → lookup k m ≡ none
    → lookup k (drop_expired ttl now m) ≡ none
unfolding lookup drop_expired
lookup-drop_expired_absent ttl now k [] h = refl
lookup-drop_expired_absent ttl now k ((j, s) ∷ m) h =
    ground (arith, lookup-drop_expired_absent ttl now k m)

pub lookup-drop_expired :
    (ttl : ℤ) (now : ℕ) (k : Bytes) (m : Sessions)
    → Distinct m
    → lookup k (drop_expired ttl now m) ≡ unexpired ttl now (lookup k m)
unfolding lookup drop_expired
lookup-drop_expired ttl now k [] d = refl
lookup-drop_expired ttl now k ((j, s) ∷ m) d = ground (
  arith,
  bytes_beq_iff j k,
  lookup-drop_expired_absent ttl now k m,
  lookup-drop_expired ttl now k m d.1,
)

pub drop_expired-Distinct :
    (ttl : ℤ) (now : ℕ) (m : Sessions) → Distinct m → Distinct (drop_expired ttl now m)
unfolding drop_expired
drop_expired-Distinct ttl now [] d = tt
drop_expired-Distinct ttl now ((j, s) ∷ m) d = elim (Bool-cases (is_expired ttl now s)) [
  | inl old ↦ rw old (drop_expired-Distinct ttl now m d.1)
  | inr live ↦
      rw live (lookup-drop_expired_absent ttl now j m d.0, drop_expired-Distinct ttl now m d.1)
]

pub All-drop_expired :
    (P : Bytes × Session → Type 0) (ttl : ℤ) (now : ℕ) (m : Sessions)
    → All P m
    → All P (drop_expired ttl now m)
unfolding drop_expired
All-drop_expired P ttl now [] h = tt
All-drop_expired P ttl now ((j, s) ∷ m) h = elim (Bool-cases (is_expired ttl now s)) [
  | inl old ↦ rw old (All-drop_expired P ttl now m h.1)
  | inr live ↦ rw live (h.0, All-drop_expired P ttl now m h.1)
]

pub length-drop_expired-le :
    (ttl : ℤ) (now : ℕ) (m : Sessions) → length (drop_expired ttl now m) ≤ length m
unfolding drop_expired
length-drop_expired-le ttl now [] = omega arith
length-drop_expired-le ttl now ((j, s) ∷ m) = ground (arith, length-drop_expired-le ttl now m)

-- No entry was created before this one.
abbrev Since : ℕ → Sessions → Type 0
Since time = All (λ e. time ≤ e.1.created)

-- `id` names an entry of `m`, and none is older.
pub record IsOldest (id : Bytes) (m : Sessions) : Type 0 where
  pub entry : Session
  pub held : lookup id m ≡ some entry
  pub least : Since entry.created m

-- Where the scan ends: at its start, or at an older entry of the rest.
abbrev ScanEnds : Bytes → ℕ → Sessions → Bytes → Type 0
ScanEnds id time m r =
    ((r ≡ id) × Since time m)
    ⊎ ((s : Session) × (lookup r m ≡ some s) × (s.created < time) × Since s.created m)

lookup_head : (j : Bytes) (s : Session) (m : Sessions) → lookup j ((j, s) ∷ m) ≡ some s
unfolding lookup
lookup_head j s m = rw ((bytes_beq_iff j j).1 refl)

lookup_behind :
    (j k : Bytes) (s t : Session) (m : Sessions)
    → lookup j m ≡ none
    → lookup k m ≡ some t
    → lookup k ((j, s) ∷ m) ≡ some t
unfolding lookup
lookup_behind j k s t m absent held = ground (arith, bytes_beq_iff j k)

module _ (j id r : Bytes) (s : Session) (time : ℕ) (m : Sessions) (absent : lookup j m ≡ none) where
  ScanEnds-older : s.created < time → ScanEnds j s.created m r → ScanEnds id time ((j, s) ∷ m) r
  ScanEnds-older lt (inl (e, since)) = inr (s, rw e (lookup_head j s m), lt, (omega arith, since))
  ScanEnds-older lt (inr (t, held, le, since)) =
      inr (t, lookup_behind j r s t m absent held, omega arith, (omega arith, since))

  ScanEnds-newer : time ≤ s.created → ScanEnds id time m r → ScanEnds id time ((j, s) ∷ m) r
  ScanEnds-newer le (inl (e, since)) = inl (e, (le, since))
  ScanEnds-newer le (inr (t, held, lt, since)) =
      inr (t, lookup_behind j r s t m absent held, lt, (omega arith, since))

oldest_from-ScanEnds :
    (id : Bytes) (time : ℕ) (m : Sessions) → Distinct m → ScanEnds id time m (oldest_from id time m)
unfolding oldest_from
oldest_from-ScanEnds id time [] d = inl (refl, tt)
oldest_from-ScanEnds id time ((j, s) ∷ m) d = elim (Bool-cases (ltb s.created time)) [
  | inl older ↦
      rw older
        (ScanEnds-older j id _ s time m d.0 (ground arith) (oldest_from-ScanEnds j s.created m d.1))
  | inr newer ↦
      rw newer
        (ScanEnds-newer j id _ s time m d.0 (ground arith) (oldest_from-ScanEnds id time m d.1))
]

-- On a map that is not empty and has distinct keys, `evictOldestLocked` chooses an entry that no entry is older than.
pub oldest-IsOldest :
    (e : Bytes × Session) (m : Sessions)
    → Distinct (e ∷ m)
    → (id : Bytes) × (oldest (e ∷ m) ≡ some id) × IsOldest id (e ∷ m)
unfolding oldest
oldest-IsOldest (j, s) m d = (r, refl, found (oldest_from-ScanEnds j s.created m d.1))
  where
    r : Bytes
    r = oldest_from j s.created m

    found : ScanEnds j s.created m r → IsOldest r ((j, s) ∷ m)
    found (inl (e, since)) = record {
      entry = s;
      held = rw e (lookup_head j s m);
      least = (omega arith, since);
    }
    found (inr (t, held, lt, since)) = record {
      entry = t;
      held = lookup_behind j r s t m d.0 held;
      least = (omega arith, since);
    }
