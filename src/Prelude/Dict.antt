-- ===== src/Prelude/Dict.antt =====
-- Go maps as association lists; the order of the entries is the order of one iteration.
use Prim.Native.Nat.{suc, ◌≤◌}
use mathlib.Core.Path.{◌≡◌, refl}
use mathlib.Core.Logic.{inl, inr}
use mathlib.Core.Option.{Option, none, some}
use mathlib.Core.List.{List, [], ◌∷◌}
use native.Mathlib.Omega.{arith}
use netsee.Prelude.Tests.{if◌then◌else◌, Eq, Bool-cases}
use netsee.Prelude.Lists.{length, All}

module _ {ℓ κ} {K : Type ℓ} {V : Type κ} ⦃e : Eq K⦄ where
  -- `m[k]` with its second result
  unfoldable pub lookup : K → List (K × V) → Option V
  lookup k [] = none
  lookup k ((j, v) ∷ m) = if e.beq j k then some v else lookup k m

  -- `m[k] = v`: in place, or a new entry
  unfoldable pub insert : K → V → List (K × V) → List (K × V)
  insert k v [] = (k, v) ∷ []
  insert k v ((j, w) ∷ m) = if e.beq j k then (j, v) ∷ m else (j, w) ∷ insert k v m

  -- `delete(m, k)`
  unfoldable pub erase : K → List (K × V) → List (K × V)
  erase k [] = []
  erase k ((j, v) ∷ m) = let rest = erase k m in if e.beq j k then rest else (j, v) ∷ rest

  pub lookup-insert :
      (k j : K) (v : V) (m : List (K × V))
      → lookup j (insert k v m) ≡ (if e.beq k j then some v else lookup j m)
  unfolding lookup insert
  lookup-insert k j v [] = refl
  lookup-insert k j v ((i, w) ∷ m) =
      ground (arith, e.beq_iff k j, e.beq_iff i k, e.beq_iff i j, lookup-insert k j v m)

  pub lookup-erase :
      (k j : K) (m : List (K × V)) → lookup j (erase k m) ≡ (if e.beq k j then none else lookup j m)
  unfolding lookup erase
  lookup-erase k j [] = ground arith
  lookup-erase k j ((i, w) ∷ m) =
      ground (arith, e.beq_iff k j, e.beq_iff i k, e.beq_iff i j, lookup-erase k j m)

module _ {ℓ κ} {K : Type ℓ} {V : Type κ} ⦃e : Eq K⦄ where
  -- A Go map holds a key once.
  abbrev pub Distinct : List (K × V) → Type κ
  Distinct [] = Unit
  Distinct ((k, v) ∷ m) = (lookup k m ≡ none) × Distinct m

  pub insert-Distinct : (k : K) (v : V) (m : List (K × V)) → Distinct m → Distinct (insert k v m)
  unfolding lookup insert
  insert-Distinct k v [] d = (refl, tt)
  insert-Distinct k v ((j, w) ∷ m) d = elim (Bool-cases (e.beq j k)) [
    | inl same ↦ rw same d
    | inr other ↦ rw other (
      ground (arith, lookup-insert k j v m, e.beq_iff k j, e.beq_iff j k),
      insert-Distinct k v m d.1,
    )
  ]

  pub erase-Distinct : (k : K) (m : List (K × V)) → Distinct m → Distinct (erase k m)
  unfolding lookup erase
  erase-Distinct k [] d = tt
  erase-Distinct k ((j, w) ∷ m) d = elim (Bool-cases (e.beq j k)) [
    | inl same ↦ rw same (erase-Distinct k m d.1)
    | inr other ↦
        rw other
          (ground (arith, lookup-erase k j m, e.beq_iff k j, e.beq_iff j k), erase-Distinct k m d.1)
  ]

  pub length-insert_new :
      (k : K) (v : V) (m : List (K × V))
      → lookup k m ≡ none
      → length (insert k v m) ≡ suc (length m)
  unfolding lookup insert
  length-insert_new k v [] h = refl
  length-insert_new k v ((j, w) ∷ m) h = ground (arith, length-insert_new k v m)

  pub length-insert_old :
      (k : K) (v w : V) (m : List (K × V)) → lookup k m ≡ some w → length (insert k v m) ≡ length m
  unfolding lookup insert
  length-insert_old k v w [] h = cc
  length-insert_old k v w ((j, u) ∷ m) h = ground (arith, length-insert_old k v w m)

  erase-absent : (k : K) (m : List (K × V)) → lookup k m ≡ none → erase k m ≡ m
  unfolding lookup erase
  erase-absent k [] h = refl
  erase-absent k ((j, w) ∷ m) h = ground (arith, erase-absent k m)

  pub length-erase-le : (k : K) (m : List (K × V)) → length (erase k m) ≤ length m
  unfolding erase
  length-erase-le k [] = omega arith
  length-erase-le k ((j, w) ∷ m) = ground (arith, length-erase-le k m)

  pub length-erase :
      (k : K) (v : V) (m : List (K × V))
      → Distinct m
      → lookup k m ≡ some v
      → suc (length (erase k m)) ≡ length m
  unfolding lookup erase
  length-erase k v [] d h = cc
  length-erase k v ((j, w) ∷ m) d h =
      ground (arith, e.beq_iff j k, erase-absent k m, length-erase k v m)

  pub All-erase {η} : (P : K × V → Type η) (k : K) (m : List (K × V)) → All P m → All P (erase k m)
  unfolding erase
  All-erase P k [] h = tt
  All-erase P k ((j, w) ∷ m) h = elim (Bool-cases (e.beq j k)) [
    | inl same ↦ rw same (All-erase P k m h.1)
    | inr other ↦ rw other (h.0, All-erase P k m h.1)
  ]

  pub All-insert {η} :
      (P : K × V → Type η) (k : K) (v : V) (m : List (K × V))
      → P (k, v)
      → All P m
      → All P (insert k v m)
  unfolding insert
  All-insert P k v [] hv h = (hv, tt)
  All-insert P k v ((j, w) ∷ m) hv h = elim (Bool-cases (e.beq j k)) [
    | inl same ↦ rw same (rw ((e.beq_iff j k).0 same) hv, h.1)
    | inr other ↦ rw other (h.0, All-insert P k v m hv h.1)
  ]

  pub All-lookup {η} :
      (P : K × V → Type η) (k : K) (v : V) (m : List (K × V))
      → All P m
      → lookup k m ≡ some v
      → P (k, v)
  unfolding lookup
  All-lookup P k v [] h l = cc
  All-lookup P k v ((j, w) ∷ m) h l = elim (Bool-cases (e.beq j k)) [
    | inl same ↦
        let key : j ≡ k = (e.beq_iff j k).0 same in
        let value : w ≡ v = ground arith in rw (← key, ← value) h.0
    | inr other ↦ All-lookup P k v m h.1 (rw other at l)
  ]
