-- ===== src/Probe/Paths/Spelled.antt =====
-- Paths that are spelled by segments, and the patterns that match them.
use netsee.Prelude.{
  All, Bool-cases, List, [], ap, append-nil, arith, false, inl, inr, not, refl, some, sym, true,
  ◌&&◌, ◌++◌, ◌∙◌, ◌∷◌, ◌≡◌,
}
use netsee.Prelude.Text.{Bytes, bytes_beq, bytes_beq_iff, is_empty}
use netsee.Probe.Paths.{
  Segment, before_slash, first_segment, from_slash, literal, match_segments, path_unescape, slash,
  wildcard,
}
use netsee.Probe.Paths.Segments.{
  Head, Head-first_segment, Head-not_empty, IsTail, before-from, first_segment-Head,
  from_slash-IsTail, has_byte-before_slash,
}

-- The path starts with these segments, each of them behind a slash, and `rest` follows.
abbrev pub SpellsTo : List Bytes → Bytes → Bytes → Type 0
SpellsTo [] rest path = path ≡ rest
SpellsTo (name ∷ names) rest path =
    (behind : Bytes) × Head name behind path × SpellsTo names rest behind

-- And has no others.
abbrev pub Spells : List Bytes → Bytes → Type 0
Spells names path = SpellsTo names [] path

SpellsTo-append :
    (names others : List Bytes) (rest middle path : Bytes)
    → SpellsTo names middle path
    → SpellsTo others rest middle
    → SpellsTo (names ++ others) rest path
SpellsTo-append [] others rest middle path h k = rw h k
SpellsTo-append (s ∷ names) others rest middle path (behind, head, h) k =
    (behind, head, SpellsTo-append names others rest middle behind h k)

SpellsTo-split :
    (names others : List Bytes) (rest path : Bytes)
    → SpellsTo (names ++ others) rest path
    → (middle : Bytes) × SpellsTo names middle path × SpellsTo others rest middle
SpellsTo-split [] others rest path h = (path, refl, h)
SpellsTo-split (s ∷ names) others rest path (behind, head, h) =
    let (middle, spelled, last) = SpellsTo-split names others rest behind h in
    (middle, (behind, head, spelled), last)

-- A literal of a pattern that is no slash and not empty.
abbrev pub IsName : Bytes → Type 0
IsName s = (is_empty s ≡ false) × (bytes_beq s slash ≡ false)

abbrev pub literals : List Bytes → List Segment → List Segment
literals [] pattern' = pattern'
literals (s ∷ names) pattern' = literal s ∷ literals names pattern'

match-literal :
    (s path : Bytes) (pattern' : List Segment) (values : List Bytes)
    → match_segments (literal s ∷ pattern') path ≡ some values
    → (is_empty path ≡ false)
      × ((first_segment path).0 ≡ s)
      × (match_segments pattern' (first_segment path).1 ≡ some values)
unfolding match_segments
match-literal s path pattern' values h =
    elim (Bool-cases (not (is_empty path) && bytes_beq (first_segment path).0 s)) [
      | inr miss ↦ absurd (ground (arith, rw miss at h))
      | inl hit ↦ (
        ground (arith, hit),
        (bytes_beq_iff (first_segment path).0 s).0 (ground (arith, hit)),
        rw hit at h,
      )
    ]

Head-match_literal :
    {s rest path : Bytes} (pattern' : List Segment)
    → Head s rest path
    → match_segments (literal s ∷ pattern') path ≡ match_segments pattern' rest
unfolding match_segments
Head-match_literal {s} {rest} {path} pattern' h =
    let same : bytes_beq s s ≡ true = (bytes_beq_iff s s).1 refl in
    rw (Head-first_segment h, Head-not_empty h, same) refl

literal-Head :
    (s path : Bytes)
    → IsName s
    → IsTail path
    → is_empty path ≡ false
    → (first_segment path).0 ≡ s
    → Head s (first_segment path).1 path
literal-Head s path n t full e =
    rw e at (first_segment-Head path t full (rw (← e) at n.1) (rw (← e) at n.0))

match-literals :
    (names : List Bytes) (pattern' : List Segment) (values : List Bytes) (path : Bytes)
    → All IsName names
    → IsTail path
    → match_segments (literals names pattern') path ≡ some values
    → (rest : Bytes) × SpellsTo names rest path
      × IsTail rest
      × (match_segments pattern' rest ≡ some values)
match-literals [] pattern' values path n t h = (path, refl, t, h)
match-literals (s ∷ names) pattern' values path n t h =
    let (full, e, inner) = match-literal s path (literals names pattern') values h in
    let head = literal-Head s path n.0 t full e in
    let (rest, spelled, tail, last) =
      match-literals names pattern' values (first_segment path).1 n.1 head.behind inner in
    (rest, ((first_segment path).1, head, spelled), tail, last)

literals-match :
    (names : List Bytes) (pattern' : List Segment) (rest path : Bytes)
    → SpellsTo names rest path
    → match_segments (literals names pattern') path ≡ match_segments pattern' rest
literals-match [] pattern' rest path h = rw h refl
literals-match (s ∷ names) pattern' rest path (behind, head, h) =
    Head-match_literal (literals names pattern') head ∙ literals-match names pattern' rest behind h

match-end :
    (path : Bytes) (values : List Bytes)
    → match_segments [] path ≡ some values
    → (path ≡ []) × (values ≡ [])
unfolding match_segments
match-end [] values h = (refl, ground (arith, h))
match-end (c ∷ path) values h = cc

before_slash-last : (t : Bytes) → from_slash t ≡ [] → before_slash t ≡ t
before_slash-last t e = sym (append-nil (before_slash t)) ∙ (rw e at (before-from t))

rooted_full : (t : Bytes) → bytes_beq (b'/' ∷ t) slash ≡ false → is_empty t ≡ false
unfolding bytes_beq
rooted_full [] h = cc
rooted_full (c ∷ t) h = refl

-- Behind the slash of a last segment.
rooted-wildcard :
    (t : Bytes) (values : List Bytes)
    → match_segments (wildcard ∷ []) (b'/' ∷ t) ≡ some values
    → (id : Bytes) × Spells (id ∷ []) (b'/' ∷ t) × (bytes_beq id slash ≡ false) × (values ≡ id ∷ [])
unfolding match_segments first_segment
rooted-wildcard t values h = elim (Bool-cases (bytes_beq (b'/' ∷ t) slash)) [
  | inl root ↦
      let same : bytes_beq slash slash ≡ true = (bytes_beq_iff slash slash).1 refl in
      let path_is : b'/' ∷ t ≡ slash = (bytes_beq_iff (b'/' ∷ t) slash).0 root in
      absurd (ground (arith, same, (rw root at h)))
  | inr longer ↦ elim (from_slash-IsTail t) [
    | inr (u, e) ↦ absurd (ground (arith, (rw (longer, e) at h)))
    | inl e ↦ elim (Bool-cases (bytes_beq (path_unescape (before_slash t)) slash)) [
      | inl slash_again ↦ absurd (ground (arith, (rw (longer, e, slash_again) at h)))
      | inr other ↦
          let whole : before_slash t ≡ t = before_slash-last t e in
          (
            path_unescape t,
            (
              [],
              record {
                raw = t;
                spelled = refl;
                plain = rw whole at (has_byte-before_slash t);
                full = rooted_full t longer;
                behind = inl refl;
                parts = ap (λ s. b'/' ∷ s) (sym (append-nil t));
              },
              refl,
            ),
            rw whole at other,
            ground (arith, (rw (longer, e, other, whole) at h)),
          )
    ]
  ]
]

match-wildcard :
    (path : Bytes) (values : List Bytes)
    → IsTail path
    → match_segments (wildcard ∷ []) path ≡ some values
    → (id : Bytes) × Spells (id ∷ []) path × (bytes_beq id slash ≡ false) × (values ≡ id ∷ [])
match-wildcard path values (inl e) h = let empty = rw e at h in unfold match_segments in cc
match-wildcard path values (inr (t, e)) h = rw e (rooted-wildcard t values (rw e at h))

Spells-match_wildcard :
    (id path : Bytes)
    → Spells (id ∷ []) path
    → bytes_beq id slash ≡ false
    → match_segments (wildcard ∷ []) path ≡ some (id ∷ [])
unfolding match_segments
Spells-match_wildcard id path (rest, head, e) other =
    rw (Head-first_segment head, Head-not_empty head, other, e)
      (ap (λ q. some (q.0 ∷ [])) (Head-first_segment head))

-- The pattern of names before a wildcard matches the paths that spell the names and one segment
-- more, which does not stand for a slash, and gives that segment.
pub match-names_wildcard :
    (names values : List Bytes) (path : Bytes)
    → All IsName names
    → IsTail path
    → match_segments (literals names (wildcard ∷ [])) path ≡ some values
    → (id : Bytes) × Spells (names ++ (id ∷ [])) path
      × (bytes_beq id slash ≡ false)
      × (values ≡ id ∷ [])
match-names_wildcard names values path n t h =
    let (rest, spelled, tail, last) = match-literals names (wildcard ∷ []) values path n t h in
    let (id, spelled', other, e) = match-wildcard rest values tail last in
    (id, SpellsTo-append names (id ∷ []) [] rest path spelled spelled', other, e)

pub names_wildcard-match :
    (names : List Bytes) (id path : Bytes)
    → Spells (names ++ (id ∷ [])) path
    → bytes_beq id slash ≡ false
    → match_segments (literals names (wildcard ∷ [])) path ≡ some (id ∷ [])
names_wildcard-match names id path h other =
    let (rest, spelled, last) = SpellsTo-split names (id ∷ []) [] path h in
    literals-match names (wildcard ∷ []) rest path spelled
    ∙ Spells-match_wildcard id rest last other

-- And a pattern of names alone matches the paths that spell them.
pub match-names :
    (names values : List Bytes) (path : Bytes)
    → All IsName names
    → IsTail path
    → match_segments (literals names []) path ≡ some values
    → Spells names path
match-names names values path n t h =
    let (rest, spelled, tail, last) = match-literals names [] values path n t h in
    let empty = (match-end rest values last).0 in rw empty at spelled

pub names-match :
    (names : List Bytes) (path : Bytes)
    → Spells names path
    → match_segments (literals names []) path ≡ some []
unfolding match_segments
names-match names path h = literals-match names [] [] path h
