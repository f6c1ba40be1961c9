-- ===== src/Probe/Paths/Cleaned.antt =====
-- Paths that `cleanPath` leaves as they are.
use netsee.Prelude.{
  All, List, [], append-nil, append_assoc, arith, false, refl, sym, ℕ, ◌++◌, ◌∙◌, ◌∷◌, ◌≡◌,
}
use netsee.Prelude.Hosts.{has_byte}
use netsee.Prelude.Text.{Bytes, bytes_beq, is_empty, join, utf8}
use netsee.Prelude.Words.{split}
use netsee.Prelude.Words.Split.{Without, split-join}
use netsee.Probe.Paths.{clean_path, ends_in_slash, kept_elements, slash}

-- An element that `path.Clean` keeps.
pub record IsElement (s : Bytes) : Type 0 where
  pub plain : has_byte b'/' s ≡ false
  pub full : is_empty s ≡ false
  pub not_dot : bytes_beq s (utf8 ".") ≡ false
  pub not_dots : bytes_beq s (utf8 "..") ≡ false

has_byte-Without : (c : ℕ) (s : Bytes) → has_byte c s ≡ false → Without c s
unfolding has_byte
has_byte-Without c [] h = tt
has_byte-Without c (d ∷ s) h = (ground (arith, h), has_byte-Without c s (ground (arith, h)))

kept_elements-All : (kept l : List Bytes) → All IsElement l → kept_elements kept l ≡ kept ++ l
unfolding kept_elements
kept_elements-All kept [] h = sym (append-nil kept)
kept_elements-All kept (s ∷ l) (e, h) =
    rw (e.full, e.not_dot, e.not_dots)
      (kept_elements-All (kept ++ (s ∷ [])) l h ∙ append_assoc kept (s ∷ []) l)

ends_in_slash-append : (a t : Bytes) → is_empty t ≡ false → ends_in_slash (a ++ t) ≡ ends_in_slash t
unfolding ends_in_slash
ends_in_slash-append a [] h = cc
ends_in_slash-append [] (c ∷ t) h = refl
ends_in_slash-append (d ∷ []) (c ∷ t) h = refl
ends_in_slash-append (d ∷ e ∷ a) (c ∷ t) h = ends_in_slash-append (e ∷ a) (c ∷ t) h

ends_in_slash-plain : (s : Bytes) → has_byte b'/' s ≡ false → ends_in_slash s ≡ false
unfolding ends_in_slash has_byte
ends_in_slash-plain [] h = refl
ends_in_slash-plain (c ∷ []) h = ground (arith, h)
ends_in_slash-plain (c ∷ d ∷ s) h = ends_in_slash-plain (d ∷ s) (ground (arith, h))

-- The elements joined end in no slash, and are not empty.
join-full : (s : Bytes) (l : List Bytes) → IsElement s → is_empty (join slash (s ∷ l)) ≡ false
unfolding join
join-full [] l e = let empty = e.full in cc
join-full (c ∷ s) [] e = refl
join-full (c ∷ s) (t ∷ l) e = refl

ends_in_slash-join :
    (s : Bytes) (l : List Bytes)
    → All IsElement (s ∷ l)
    → ends_in_slash (join slash (s ∷ l)) ≡ false
unfolding join
ends_in_slash-join s [] (e, h) = ends_in_slash-plain s e.plain
ends_in_slash-join s (t ∷ l) (e, h) =
    ends_in_slash-append s (slash ++ join slash (t ∷ l)) refl
    ∙ ends_in_slash-append slash (join slash (t ∷ l)) (join-full t l h.0)
    ∙ ends_in_slash-join t l h

All-Without : (l : List Bytes) → All IsElement l → All (Without b'/') l
All-Without [] h = tt
All-Without (s ∷ l) (e, h) = (has_byte-Without b'/' s e.plain, All-Without l h)

split-rooted :
    (s : Bytes) (l : List Bytes)
    → All IsElement (s ∷ l)
    → split b'/' (b'/' ∷ join slash (s ∷ l)) ≡ [] ∷ s ∷ l
unfolding join
split-rooted s l h = split-join b'/' [] (s ∷ l) (tt, All-Without (s ∷ l) h)

-- A path of such elements is clean.
pub clean_path-join :
    (s : Bytes) (l : List Bytes)
    → All IsElement (s ∷ l)
    → clean_path (b'/' ∷ join slash (s ∷ l)) ≡ b'/' ∷ join slash (s ∷ l)
unfolding clean_path
clean_path-join s l h =
    let kept : kept_elements [] ([] ∷ s ∷ l) ≡ s ∷ l =
      unfold kept_elements in kept_elements-All [] (s ∷ l) h in
    rw
      (
        split-rooted s l h,
        kept,
        ends_in_slash-append slash (join slash (s ∷ l)) (join-full s l h.0),
        ends_in_slash-join s l h,
      )
      refl
