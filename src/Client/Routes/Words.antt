-- ===== src/Client/Routes/Words.antt =====
-- The words of a line, and the interface of the route that it holds.
use netsee.Client.Attribution.{is_tun_interface}
use netsee.Client.Routes.{Route, field, fields, fields_from, physical_v4, route_v4, route_v6}
use netsee.Prelude.{
  All, Bool-cases, List, [], arith, false, inl, inr, length, ltb, refl, some, suc, true, zero, ℕ,
  ◌++◌, ◌<◌, ◌∷◌, ◌≡◌, ◌≢◌,
}
use netsee.Prelude.Int.{leb_ℤ, pos, ℤ}
use netsee.Prelude.Text.{Bytes, is_empty}
use netsee.Prelude.Words.{is_space}

abbrev pub IsWord : Bytes → Type 0
IsWord w = is_empty w ≡ false

append-IsWord : (w : Bytes) (c : ℕ) → IsWord (w ++ (c ∷ []))
append-IsWord [] c = refl
append-IsWord (x ∷ w) c = refl

fields_from-IsWord : (word s : Bytes) → All IsWord (fields_from word s)
unfolding fields_from
fields_from-IsWord [] [] = tt
fields_from-IsWord (x ∷ word) [] = (refl, tt)
fields_from-IsWord word (c ∷ s) = elim (Bool-cases (is_space c)) [
  | inr inside ↦ rw (inside, fields_from) (fields_from-IsWord (word ++ (c ∷ [])) s)
  | inl space ↦ elim (Bool-cases (is_empty word)) [
    | inl empty ↦ rw (space, empty, fields_from) (fields_from-IsWord [] s)
    | inr full ↦ rw (space, full, fields_from) (full, fields_from-IsWord [] s)
  ]
]

pub fields-IsWord : (line : Bytes) → All IsWord (fields line)
unfolding fields
fields-IsWord line = fields_from-IsWord [] line

-- A line that starts with no space has a word.
pub fields-ne-nil : (c : ℕ) (s : Bytes) → is_space c ≡ false → fields (c ∷ s) ≢ []
unfolding fields fields_from
fields-ne-nil c s inside = rw (inside, fields_from) (goes_on [] c s)
  where
    started : (x : ℕ) (word t : Bytes) → fields_from (x ∷ word) t ≢ []
    started x word [] = λ e. ground arith
    started x word (c ∷ t) = elim (Bool-cases (is_space c)) [
      | inl space ↦ rw (space, fields_from) (λ e. ground arith)
      | inr inside ↦ rw (inside, fields_from) (started x (word ++ (c ∷ [])) t)
    ]

    goes_on : (word : Bytes) (x : ℕ) (t : Bytes) → fields_from (word ++ (x ∷ [])) t ≢ []
    goes_on [] x t = started x [] t
    goes_on (y ∷ word) x t = started y (word ++ (x ∷ [])) t

IsWord-at : (fs : List Bytes) (i : ℕ) → All IsWord fs → i < length fs → IsWord (field fs i)
unfolding field
IsWord-at [] i h lt = absurd (omega arith)
IsWord-at (f ∷ fs) zero h lt = h.0
IsWord-at (f ∷ fs) (suc i) h lt = IsWord-at fs i h.1 (omega arith)

field-IsWord : (line : Bytes) (i : ℕ) → i < length (fields line) → IsWord (field (fields line) i)
unfolding fields
field-IsWord line i lt = IsWord-at (fields_from [] line) i (fields_from-IsWord [] line) lt

pub route_v4-IsWord :
    (atoi : Bytes → ℤ) (line : Bytes) (r : Route)
    → route_v4 atoi line ≡ some r
    → is_empty r.iface ≡ false
unfolding route_v4
route_v4-IsWord atoi line r h = elim (Bool-cases (ltb (length (fields line)) 11)) [
  | inl short ↦ absurd (ground arith)
  | inr enough ↦ let word = field-IsWord line 0 (ground arith) in ground (arith, word)
]

pub physical_v4-IsWord :
    (atoi : Bytes → ℤ) (line : Bytes) (r : Route)
    → physical_v4 atoi line ≡ some r
    → (is_empty r.iface ≡ false) × (is_tun_interface r.iface ≡ false)
unfolding physical_v4
physical_v4-IsWord atoi line r h = elim (Bool-cases (ltb (length (fields line)) 11)) [
  | inl short ↦ absurd (ground arith)
  | inr enough ↦
      let word = field-IsWord line 0 (ground arith) in (ground (arith, word), ground arith)
]

pub route_v6-IsWord :
    (line : Bytes) (r : Route)
    → route_v6 line ≡ some r
    → (is_empty r.iface ≡ false) × (leb_ℤ (pos 0) r.metric ≡ true)
unfolding route_v6
route_v6-IsWord line r h = elim (Bool-cases (ltb (length (fields line)) 10)) [
  | inl short ↦ absurd (ground arith)
  | inr enough ↦
      let word = field-IsWord line 9 (ground arith) in (ground (arith, word), ground arith)
]
