-- ===== src/Prelude/Sort.antt =====
-- `sort.Strings`: an ascending arrangement, bytewise. A sort of strings has one result, so the
-- algorithm does not matter; this is insertion sort.
use mathlib.Core.Path.{◌≡◌, refl, ap, ◌∙◌}
use mathlib.Core.Bool.{Bool, true, false}
use mathlib.Core.Logic.{∥∥₁_elim, inl, inr, ◌≢◌}
use mathlib.Core.List.{List, [], ◌∷◌, Perm, Permᴰ}
use native.Mathlib.Omega.{arith}
use netsee.Prelude.Tests.{ltb, ◌==◌, if◌then◌else◌, Bool-cases}
use mathlib.Core.List.Perm
use native.Mathlib.Decide.{ℕ_discrete}
use netsee.Prelude.Text.{Bytes}

-- `a <= b` on strings
unfoldable pub leb_bytes : Bytes → Bytes → Bool
leb_bytes [] b = true
leb_bytes (x ∷ a) [] = false
leb_bytes (x ∷ a) (y ∷ b) =
    let rest = leb_bytes a b in if ltb x y then true else (if x == y then rest else false)

unfoldable pub insert_string : Bytes → List Bytes → List Bytes
insert_string s [] = s ∷ []
insert_string s (t ∷ l) =
    let rest = insert_string s l in if leb_bytes s t then s ∷ t ∷ l else t ∷ rest

unfoldable pub sort_strings : List Bytes → List Bytes
sort_strings [] = []
sort_strings (s ∷ l) = insert_string s (sort_strings l)

leb_bytes-total : (a b : Bytes) → leb_bytes a b ≡ false → leb_bytes b a ≡ true
unfolding leb_bytes
leb_bytes-total [] b h = cc
leb_bytes-total (x ∷ a) [] h = refl
leb_bytes-total (x ∷ a) (y ∷ b) h = ground (arith, leb_bytes-total a b)

leb_bytes_antisymm : (a b : Bytes) → leb_bytes a b ≡ true → leb_bytes b a ≡ true → a ≡ b
unfolding leb_bytes
leb_bytes_antisymm [] [] h k = refl
leb_bytes_antisymm [] (y ∷ b) h k = cc
leb_bytes_antisymm (x ∷ a) [] h k = cc
leb_bytes_antisymm (x ∷ a) (y ∷ b) h k = ground (arith, leb_bytes_antisymm a b)

leb_bytes_trans :
    (a b c : Bytes) → leb_bytes a b ≡ true → leb_bytes b c ≡ true → leb_bytes a c ≡ true
unfolding leb_bytes
leb_bytes_trans [] b c h k = refl
leb_bytes_trans (x ∷ a) [] c h k = cc
leb_bytes_trans (x ∷ a) (y ∷ b) [] h k = cc
leb_bytes_trans (x ∷ a) (y ∷ b) (z ∷ c) h k = ground (arith, leb_bytes_trans a b c)

-- The order of two insertions does not matter.
insert_string_comm :
    (s t : Bytes) (l : List Bytes)
    → insert_string s (insert_string t l) ≡ insert_string t (insert_string s l)
unfolding insert_string
insert_string_comm s t [] = ground (arith, leb_bytes-total s t, leb_bytes_antisymm s t)
insert_string_comm s t (u ∷ l) = ground (
  arith,
  leb_bytes-total s t,
  leb_bytes_antisymm s t,
  leb_bytes_trans s t u,
  leb_bytes_trans t s u,
  leb_bytes-total s u,
  leb_bytes-total t u,
  leb_bytes_antisymm t s,
  insert_string_comm s t l,
)

pub sort_strings-ne-nil : (s : Bytes) (l : List Bytes) → sort_strings (s ∷ l) ≢ []
unfolding sort_strings
sort_strings-ne-nil s l = insert_string-ne-nil (sort_strings l)
  where
    insert_string-ne-nil : (m : List Bytes) → insert_string s m ≢ []
    insert_string-ne-nil [] = unfold insert_string in λ e. cc
    insert_string-ne-nil (t ∷ m) = unfold insert_string in λ e. ground arith

texts_set : IsSet (List Bytes)
texts_set = hlevel ℕ_discrete

sort_strings-eq_of_Permᴰ : {l m : List Bytes} → Permᴰ l m → sort_strings l ≡ sort_strings m
unfolding sort_strings
sort_strings-eq_of_Permᴰ Permᴰ.nil = refl
sort_strings-eq_of_Permᴰ (Permᴰ.cons {b = b} e p) =
    rw e (ap (insert_string b) (sort_strings-eq_of_Permᴰ p))
sort_strings-eq_of_Permᴰ (Permᴰ.swap {a} {b} {l = l} e f) =
    rw (← e, ← f) (insert_string_comm a b (sort_strings l))
sort_strings-eq_of_Permᴰ (Permᴰ.trans p q) = sort_strings-eq_of_Permᴰ p ∙ sort_strings-eq_of_Permᴰ q

insert_string-perm : (s : Bytes) (l : List Bytes) → Perm (insert_string s l) (s ∷ l)
unfolding insert_string
insert_string-perm s [] = Perm.refl (s ∷ [])
insert_string-perm s (t ∷ l) = elim (Bool-cases (leb_bytes s t)) [
  | inl le ↦ rw le (Perm.refl (s ∷ t ∷ l))
  | inr gt ↦ rw gt (Perm.trans (Perm.cons t (insert_string-perm s l)) (Perm.swap s t l))
]

-- Sorting rearranges.
pub sort_strings-perm : (l : List Bytes) → Perm (sort_strings l) l
unfolding sort_strings
sort_strings-perm [] = Perm.refl []
sort_strings-perm (s ∷ l) =
    Perm.trans (insert_string-perm s (sort_strings l)) (Perm.cons s (sort_strings-perm l))

-- Sorting forgets the order of its input.
pub sort_strings-eq_of_Perm : {l m : List Bytes} → Perm l m → sort_strings l ≡ sort_strings m
sort_strings-eq_of_Perm p = ∥∥₁_elim p (texts_set _ _) sort_strings-eq_of_Permᴰ
