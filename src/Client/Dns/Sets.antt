-- ===== src/Client/Dns/Sets.antt =====
-- What `setsEqual` and the test for fake addresses say of the answers.
use mathlib.Core.Path.{subst}
use mathlib.Core.List.{Perm}
use mathlib.Core.List.Perm
use netsee.Client.Attribution.{ParseAddr, detect_fake_ip_answer, in_fake_range, is_fake_ip}
use netsee.Client.Dns.{sets_equal}
use netsee.Prelude.{
  All, Bool, Bool-cases, List, Option-cases, [], ap, arith, false, inl, inr, refl, some, sym, true,
  ℕ, ◌↔◌, ◌∙◌, ◌∷◌, ◌≡◌, ◌≢◌, ◌⊎◌,
}
use netsee.Prelude.Sort.{
  insert_string, leb_bytes, sort_strings, sort_strings-eq_of_Perm, sort_strings-perm,
}
use netsee.Prelude.Text.{Bytes, bytes_beq_iff, is_empty, join, utf8}
use netsee.Prelude.Words.{split}
use netsee.Prelude.Words.Split.{Without, split-join}

-- An address as a text: not empty and with no comma.
abbrev pub IsPlain : Bytes → Type 0
IsPlain s = (is_empty s ≡ false) × Without b',' s

sort_strings-All : (P : Bytes → Type 0) (l : List Bytes) → All P l → All P (sort_strings l)
unfolding sort_strings insert_string
sort_strings-All P [] h = tt
sort_strings-All P (s ∷ l) h = inserted s (sort_strings l) h.0 (sort_strings-All P l h.1)
  where
    inserted : (s : Bytes) (l : List Bytes) → P s → All P l → All P (insert_string s l)
    inserted s [] p h = (p, tt)
    inserted s (t ∷ l) p h = elim (Bool-cases (leb_bytes s t)) [
      | inl le ↦ rw (insert_string, le) (p, h)
      | inr gt ↦ rw (insert_string, gt) (h.0, inserted s l p h.1)
    ]

-- The join of a list that holds a text which is not empty.
join-full : (s : Bytes) (l : List Bytes) → is_empty s ≡ false → join (utf8 ",") (s ∷ l) ≢ []
unfolding join
join-full [] l full e = cc
join-full (c ∷ s) [] full e = cc
join-full (c ∷ s) (t ∷ l) full e = cc

comma : utf8 "," ≡ b',' ∷ []
unfolding utf8
comma = refl

All-Without : (l : List Bytes) → All IsPlain l → All (Without b',') l
All-Without [] h = tt
All-Without (s ∷ l) h = (h.0.1, All-Without l h.1)

-- Lists of such texts that are joined to the same are the same.
join_inj :
    (l m : List Bytes)
    → All IsPlain l
    → All IsPlain m
    → join (utf8 ",") l ≡ join (utf8 ",") m
    → l ≡ m
join_inj [] [] h k e = refl
join_inj [] (t ∷ m) h k e = absurd (join-full t m k.0.0 (sym e ∙ unfold join in refl))
join_inj (s ∷ l) [] h k e = absurd (join-full s l h.0.0 (e ∙ unfold join in refl))
join_inj (s ∷ l) (t ∷ m) h k e =
    let e' : join (b',' ∷ []) (s ∷ l) ≡ join (b',' ∷ []) (t ∷ m) =
      subst (λ c. join c (s ∷ l) ≡ join c (t ∷ m)) comma e in
    sym (split-join b',' s l (All-Without (s ∷ l) h))
    ∙ (ap (split b',') e' ∙ split-join b',' t m (All-Without (t ∷ m) k))

pub not_same : (b : Bool) → b ≢ true → b ≡ false
not_same true n = absurd (n refl)
not_same false n = refl

-- The comparison does not see the order, and nothing else escapes it.
pub sets_equal_iff :
    (l m : List Bytes) → All IsPlain l → All IsPlain m → (sets_equal l m ≡ true) ↔ Perm l m
unfolding sets_equal
sets_equal_iff l m h k = (
  λ same.
      let sorted =
        join_inj (sort_strings l) (sort_strings m) (sort_strings-All IsPlain l h)
          (sort_strings-All IsPlain m k) ((bytes_beq_iff _ _).0 same) in
      Perm.trans (Perm.symm (sort_strings-perm l))
        (subst (λ n. Perm n m) (sym sorted) (sort_strings-perm m)),
  λ p. (bytes_beq_iff _ _).1 (ap (join (utf8 ",")) (sort_strings-eq_of_Perm p)),
)

-- The text is no address of 198.18.0.0/15.
abbrev pub IsReal : ParseAddr → Bytes → Type 0
IsReal parse_addr text =
    (a b c d : ℕ) → parse_addr text ≡ some (a, b, c, d) → ¬ ((a ≡ 198) × ((b ≡ 18) ⊎ (b ≡ 19)))

is_fake_ip-IsReal :
    (parse_addr : ParseAddr) (text : Bytes)
    → (is_fake_ip parse_addr text ≡ false) ↔ IsReal parse_addr text
unfolding is_fake_ip in_fake_range
is_fake_ip-IsReal parse_addr text = elim (Option-cases (parse_addr text)) [
  | inl nothing ↦
      ((λ h a b c d e. let no = sym nothing ∙ e in cc), (λ h. rw (is_fake_ip, nothing) refl))
  | inr ((a, b, c, d), parsed) ↦ (
    (λ h a' b' c' d' e fake. ground (arith, h, parsed, e, fake)),
    (λ h. let real = h a b c d parsed in rw (is_fake_ip, parsed) (ground (arith, real))),
  )
]

pub detect_fake_ip_answer-IsReal :
    (parse_addr : ParseAddr) (answers : List Bytes)
    → (detect_fake_ip_answer parse_addr answers ≡ false) ↔ All (IsReal parse_addr) answers
unfolding detect_fake_ip_answer
detect_fake_ip_answer-IsReal parse_addr [] = ((λ h. tt), (λ h. refl))
detect_fake_ip_answer-IsReal parse_addr (text ∷ answers) =
    let one = is_fake_ip-IsReal parse_addr text in
    let rest = detect_fake_ip_answer-IsReal parse_addr answers in
    (
      (λ h. (one.0 (ground (arith, h)), rest.0 (ground (arith, h)))),
      (λ h. let real = one.1 h.0 in let others = rest.1 h.1 in ground (arith, real, others)),
    )
