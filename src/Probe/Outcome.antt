-- ===== src/Probe/Outcome.antt =====
-- The outcomes of the ClientHello parser (internal/probe/ja3.go), and reads of a byte slice.
use netsee.Prelude.{
  Bool, Option, [], ap, arith, drop, false, get_elem?, if◌then◌else◌, leb, length, length-append,
  length-drop, none, refl, some, suc, sym, take, true, zero, ℕ, ◌&&◌, ◌*◌, ◌++◌, ◌+◌, ◌-◌, ◌<◌, ◌∙◌,
  ◌∷◌, ◌≡◌, ◌≤◌,
}
use netsee.Prelude.Text.{Bytes}

-- `need_more` and `invalid` are the states of the source. `panic` is Go's panic on an index out of
-- range; `stuck` is no Go value: a loop of the model ran out of fuel.
pub data Outcome {ℓ} (A : Type ℓ) : Type ℓ where
  done : A → Outcome A
  need_more : Outcome A
  invalid : Outcome A
  panic : Outcome A
  stuck : Outcome A

infixl 5 ◌>>=◌ ◌>>◌
abbrev pub ◌>>=◌ {ℓ κ} : {A : Type ℓ} {B : Type κ} → Outcome A → (A → Outcome B) → Outcome B
done a >>= f = f a
need_more >>= f = need_more
invalid >>= f = invalid
panic >>= f = panic
stuck >>= f = stuck

abbrev pub ◌>>◌ {ℓ} : {B : Type ℓ} → Outcome (Unit {0}) → Outcome B → Outcome B
m >> k = m >>= λ _. k

-- `if bad { return nil, stateInvalid }`
abbrev pub invalid_if : Bool → Outcome (Unit {0})
invalid_if true = invalid
invalid_if false = done tt

abbrev pub need_more_if : Bool → Outcome (Unit {0})
need_more_if true = need_more
need_more_if false = done tt

abbrev of_option {ℓ} : {A : Type ℓ} → Option A → Outcome A
of_option none = panic
of_option (some a) = done a

-- `b[i]`
unfoldable pub byte_at : Bytes → ℕ → Outcome ℕ
byte_at b i = of_option (get_elem? b i)

-- `binary.BigEndian.Uint16(b[i:])`
unfoldable pub u16_at : Bytes → ℕ → Outcome ℕ
u16_at b i = do hi ← byte_at b i; lo ← byte_at b (i + 1); done (hi * 256 + lo)

-- `b[lo:hi]`
unfoldable pub slice : Bytes → ℕ → ℕ → Outcome Bytes
slice b lo hi = if leb lo hi && leb hi (length b) then done (take (hi - lo) (drop lo b)) else panic

-- No panic, and the loops end.
abbrev pub IsSafe {ℓ} : {A : Type ℓ} → Outcome A → Type 0
IsSafe (done a) = Unit
IsSafe need_more = Unit
IsSafe invalid = Unit
IsSafe panic = ⊥
IsSafe stuck = ⊥

pub bind-IsSafe {ℓ κ} :
    {A : Type ℓ} {B : Type κ} (m : Outcome A) (f : A → Outcome B)
    → IsSafe m
    → ((a : A) → m ≡ done a → IsSafe (f a))
    → IsSafe (m >>= f)
bind-IsSafe (done a) f h k = k a refl
bind-IsSafe need_more f h k = tt
bind-IsSafe invalid f h k = tt
bind-IsSafe panic f h k = h
bind-IsSafe stuck f h k = h

get_elem?-some : (b : Bytes) (i : ℕ) → i < length b → (x : ℕ) × (get_elem? b i ≡ some x)
get_elem?-some [] i h = absurd (omega arith)
get_elem?-some (x ∷ b) zero h = (x, refl)
get_elem?-some (x ∷ b) (suc i) h = get_elem?-some b i (omega arith)

pub byte_at-done : (b : Bytes) (i : ℕ) → i < length b → (x : ℕ) × (byte_at b i ≡ done x)
unfolding byte_at
byte_at-done b i h = let (x, e) = get_elem?-some b i h in (x, rw e)

pub u16_at-done : (b : Bytes) (i : ℕ) → i + 1 < length b → (x : ℕ) × (u16_at b i ≡ done x)
unfolding u16_at
u16_at-done b i h =
    let (hi, e) = byte_at-done b i (omega arith) in
    let (lo, e') = byte_at-done b (i + 1) h in (hi * 256 + lo, ground arith)

pub slice-done :
    (b : Bytes) (lo hi : ℕ)
    → lo ≤ hi
    → hi ≤ length b
    → slice b lo hi ≡ done (take (hi - lo) (drop lo b))
unfolding slice
slice-done b lo hi p q = ground arith

pub byte_at-IsSafe : (b : Bytes) (i : ℕ) → i < length b → IsSafe (byte_at b i)
byte_at-IsSafe b i h = let (x, e) = byte_at-done b i h in rw e tt

pub u16_at-IsSafe : (b : Bytes) (i : ℕ) → i + 1 < length b → IsSafe (u16_at b i)
u16_at-IsSafe b i h = let (x, e) = u16_at-done b i h in rw e tt

pub slice-IsSafe : (b : Bytes) (lo hi : ℕ) → lo ≤ hi → hi ≤ length b → IsSafe (slice b lo hi)
slice-IsSafe b lo hi p q = rw (slice-done b lo hi p q) tt

-- Bytes behind those that are read change nothing.
get_elem?-append : (b c : Bytes) (i : ℕ) → i < length b → get_elem? (b ++ c) i ≡ get_elem? b i
get_elem?-append [] c i h = absurd (omega arith)
get_elem?-append (x ∷ b) c zero h = refl
get_elem?-append (x ∷ b) c (suc i) h = get_elem?-append b c i (omega arith)

pub byte_at-append : (b c : Bytes) (i : ℕ) → i < length b → byte_at (b ++ c) i ≡ byte_at b i
unfolding byte_at
byte_at-append b c i h = rw (get_elem?-append b c i h)

pub u16_at-append : (b c : Bytes) (i : ℕ) → i + 1 < length b → u16_at (b ++ c) i ≡ u16_at b i
unfolding u16_at
u16_at-append b c i h = rw (byte_at-append b c i (omega arith), byte_at-append b c (i + 1) h)

take-append : (n : ℕ) (b c : Bytes) → n ≤ length b → take n (b ++ c) ≡ take n b
take-append zero b c h = refl
take-append (suc n) [] c h = absurd (omega arith)
take-append (suc n) (x ∷ b) c h = ap (◌∷◌ x) (take-append n b c (omega arith))

drop-append : (n : ℕ) (b c : Bytes) → n ≤ length b → drop n (b ++ c) ≡ drop n b ++ c
drop-append zero b c h = refl
drop-append (suc n) [] c h = absurd (omega arith)
drop-append (suc n) (x ∷ b) c h = drop-append n b c (omega arith)

pub slice-append :
    (b c : Bytes) (lo hi : ℕ) → lo ≤ hi → hi ≤ length b → slice (b ++ c) lo hi ≡ slice b lo hi
slice-append b c lo hi p q =
    slice-done (b ++ c) lo hi p (omega (arith, length-append b c))
    ∙ ap done (
        ap (take (hi - lo)) (drop-append lo b c (omega arith))
        ∙ take-append (hi - lo) (drop lo b) c (omega (arith, length-drop lo b)))
    ∙ sym (slice-done b lo hi p q)

pub if-IsSafe {ℓ} :
    {A : Type ℓ} (b : Bool) (x y : Outcome A)
    → (b ≡ true → IsSafe x)
    → (b ≡ false → IsSafe y)
    → IsSafe (if b then x else y)
if-IsSafe true x y hx hy = hx refl
if-IsSafe false x y hx hy = hy refl

-- Behind a guard its test is known to have failed.
pub guard-IsSafe {ℓ} :
    {B : Type ℓ} (b : Bool) (k : Outcome B) → (b ≡ false → IsSafe k) → IsSafe (invalid_if b >> k)
guard-IsSafe true k h = tt
guard-IsSafe false k h = h refl

pub wait-IsSafe {ℓ} :
    {B : Type ℓ} (b : Bool) (k : Outcome B) → (b ≡ false → IsSafe k) → IsSafe (need_more_if b >> k)
wait-IsSafe true k h = tt
wait-IsSafe false k h = h refl
