-- ===== src/Prelude/Lists.antt =====
-- Lists measured and cut by native numbers, as Go's slices are.
use Prim.Native.Nat.{ℕ, zero, suc, ◌+◌, ◌-◌, ◌≤◌}
use mathlib.Core.Path.{◌≡◌, refl, ap}
use mathlib.Core.Logic.{◌⊎◌, inl, inr}
use mathlib.Core.Bool.{Bool, true, ◌&&◌}
use mathlib.Core.List.{List, [], ◌∷◌, ◌++◌}
use mathlib.Core.Option.{Option, none, some}
use native.Mathlib.Omega.{arith}

module _ {ℓ} {A : Type ℓ} where
  abbrev pub length : List A → ℕ
  length [] = 0
  length (x ∷ xs) = suc (length xs)

  abbrev pub get_elem? : List A → ℕ → Option A
  get_elem? [] i = none
  get_elem? (x ∷ xs) zero = some x
  get_elem? (x ∷ xs) (suc i) = get_elem? xs i

  abbrev pub get_or : List A → ℕ → A → A
  get_or [] i d = d
  get_or (x ∷ xs) zero d = x
  get_or (x ∷ xs) (suc i) d = get_or xs i d

  -- `l[:n]`
  abbrev pub take : ℕ → List A → List A
  take zero xs = []
  take (suc n) [] = []
  take (suc n) (x ∷ xs) = x ∷ take n xs

  -- `l[n:]`
  abbrev pub drop : ℕ → List A → List A
  drop zero xs = xs
  drop (suc n) [] = []
  drop (suc n) (x ∷ xs) = drop n xs

  pub length-append : (xs ys : List A) → length (xs ++ ys) ≡ length xs + length ys
  length-append [] ys = omega arith
  length-append (x ∷ xs) ys = omega (arith, length-append xs ys)

module _ {ℓ} {A : Type ℓ} where
  pub length-take : (n : ℕ) (xs : List A) → n ≤ length xs → length (take n xs) ≡ n
  length-take zero xs h = refl
  length-take (suc n) [] h = absurd (omega arith)
  length-take (suc n) (x ∷ xs) h = ap suc (length-take n xs (omega arith))

  pub length-drop : (n : ℕ) (xs : List A) → length (drop n xs) ≡ length xs - n
  length-drop zero xs = omega arith
  length-drop (suc n) [] = omega arith
  length-drop (suc n) (x ∷ xs) = omega (arith, length-drop n xs)

module _ {ℓ} {A : Type ℓ} where
  -- Every element passes the test.
  abbrev pub all : (A → Bool) → List A → Bool
  all p [] = true
  all p (x ∷ xs) = p x && all p xs

  -- A predicate that holds of every element.
  abbrev pub All {κ} : (A → Type κ) → List A → Type κ
  All P [] = Unit {κ}
  All P (x ∷ xs) = P x × All P xs

  pub All-append {κ} : (P : A → Type κ) (xs ys : List A) → All P xs → All P ys → All P (xs ++ ys)
  All-append P [] ys hx hy = hy
  All-append P (x ∷ xs) ys hx hy = (hx.0, All-append P xs ys hx.1 hy)

module _ {A : Type 0} where
  -- The element is in the list.
  abbrev pub In : A → List A → Type 0
  In x [] = ⊥
  In x (y ∷ ys) = (x ≡ y) ⊎ In x ys

  pub In-left : (x : A) (xs ys : List A) → In x xs → In x (xs ++ ys)
  In-left x [] ys h = elim h [ ]
  In-left x (y ∷ xs) ys (inl e) = inl e
  In-left x (y ∷ xs) ys (inr h) = inr (In-left x xs ys h)

  pub In-right : (x : A) (xs ys : List A) → In x ys → In x (xs ++ ys)
  In-right x [] ys h = h
  In-right x (y ∷ xs) ys h = inr (In-right x xs ys h)

  -- Blocks of a list, one after the other.
  unfoldable pub flatten : List (List A) → List A
  flatten [] = []
  flatten (xs ∷ blocks) = xs ++ flatten blocks

  pub In-flatten :
      (x : A) (blocks : List (List A)) (i : ℕ) {block : List A}
      → get_elem? blocks i ≡ some block
      → In x block
      → In x (flatten blocks)
  unfolding flatten
  In-flatten x [] i e h = cc
  In-flatten x (xs ∷ blocks) zero {block} e h =
      let same : xs ≡ block = ground arith in In-left x xs (flatten blocks) (rw same h)
  In-flatten x (xs ∷ blocks) (suc i) e h =
      In-right x xs (flatten blocks) (In-flatten x blocks i e h)

  abbrev pub total_length : List (List A) → ℕ
  total_length [] = 0
  total_length (xs ∷ blocks) = length xs + total_length blocks

  pub length-flatten : (blocks : List (List A)) → length (flatten blocks) ≡ total_length blocks
  unfolding flatten
  length-flatten [] = refl
  length-flatten (xs ∷ blocks) =
      omega (arith, length-append xs (flatten blocks), length-flatten blocks)
