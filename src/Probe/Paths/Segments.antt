-- ===== src/Probe/Paths/Segments.antt =====
-- The first segment of a path.
use netsee.Prelude.{
  ==_iff, Bool-cases, [], ap, append-nil, arith, false, inl, inr, refl, sym, true, ◌++◌, ◌==◌, ◌∙◌,
  ◌∷◌, ◌≡◌, ◌⊎◌,
}
use netsee.Prelude.Hosts.{has_byte}
use netsee.Prelude.Text.{Bytes, bytes_beq, bytes_beq_iff, is_empty}
use netsee.Probe.Paths.{
  before_slash, first_segment, from_slash, path_unescape, slash, unescape_from,
}

before_slash-append : (a t : Bytes) → has_byte b'/' a ≡ false → before_slash (a ++ (b'/' ∷ t)) ≡ a
unfolding before_slash has_byte
before_slash-append [] t h = refl
before_slash-append (c ∷ a) t h = ground (arith, before_slash-append a t (ground arith))

from_slash-append :
    (a t : Bytes) → has_byte b'/' a ≡ false → from_slash (a ++ (b'/' ∷ t)) ≡ b'/' ∷ t
unfolding from_slash has_byte
from_slash-append [] t h = refl
from_slash-append (c ∷ a) t h = ground (arith, from_slash-append a t (ground arith))

before_slash-whole : (a : Bytes) → has_byte b'/' a ≡ false → before_slash a ≡ a
unfolding before_slash has_byte
before_slash-whole [] h = refl
before_slash-whole (c ∷ a) h = ground (arith, before_slash-whole a (ground arith))

from_slash-whole : (a : Bytes) → has_byte b'/' a ≡ false → from_slash a ≡ []
unfolding from_slash has_byte
from_slash-whole [] h = refl
from_slash-whole (c ∷ a) h = ground (arith, from_slash-whole a (ground arith))

pub before-from : (s : Bytes) → before_slash s ++ from_slash s ≡ s
unfolding before_slash from_slash
before-from [] = refl
before-from (c ∷ s) = elim (Bool-cases (c == b'/')) [
  | inl here ↦ rw here refl
  | inr on ↦ rw on (ap (λ t. c ∷ t) (before-from s))
]

pub has_byte-before_slash : (s : Bytes) → has_byte b'/' (before_slash s) ≡ false
unfolding before_slash has_byte
has_byte-before_slash [] = refl
has_byte-before_slash (c ∷ s) = ground (arith, has_byte-before_slash s)

-- What may follow a segment: nothing, or a slash and more.
abbrev pub IsTail : Bytes → Type 0
IsTail s = (s ≡ []) ⊎ ((t : Bytes) × (s ≡ b'/' ∷ t))

pub from_slash-IsTail : (s : Bytes) → IsTail (from_slash s)
unfolding from_slash
from_slash-IsTail [] = inl refl
from_slash-IsTail (c ∷ s) = elim (Bool-cases (c == b'/')) [
  | inl here ↦ let e : c ≡ b'/' = (==_iff c b'/').0 here in inr (s, rw e refl)
  | inr on ↦ rw on (from_slash-IsTail s)
]

-- A path whose first segment is `a`, not yet unescaped, before another one.
first_segment-inner :
    (a t : Bytes)
    → has_byte b'/' a ≡ false
    → first_segment (b'/' ∷ (a ++ (b'/' ∷ t))) ≡ (path_unescape a, b'/' ∷ t)
unfolding first_segment bytes_beq
first_segment-inner [] t h = rw (before_slash-append [] t h, from_slash-append [] t h) refl
first_segment-inner (c ∷ a) t h =
    rw (before_slash-append (c ∷ a) t h, from_slash-append (c ∷ a) t h) refl

-- And the last segment.
first_segment-last :
    (a : Bytes)
    → has_byte b'/' a ≡ false
    → is_empty a ≡ false
    → first_segment (b'/' ∷ a) ≡ (path_unescape a, [])
unfolding first_segment bytes_beq
first_segment-last [] h full = cc
first_segment-last (c ∷ a) h full =
    rw (before_slash-whole (c ∷ a) h, from_slash-whole (c ∷ a) h) refl

-- The path starts with a segment that is spelled `raw`, and `rest` follows.
pub record Head (name rest path : Bytes) : Type 0 where
  pub raw : Bytes
  pub spelled : path_unescape raw ≡ name
  pub plain : has_byte b'/' raw ≡ false
  pub full : is_empty raw ≡ false
  pub behind : IsTail rest
  pub parts : path ≡ b'/' ∷ (raw ++ rest)

first_segment_raw :
    (raw rest : Bytes)
    → has_byte b'/' raw ≡ false
    → is_empty raw ≡ false
    → IsTail rest
    → first_segment (b'/' ∷ (raw ++ rest)) ≡ (path_unescape raw, rest)
first_segment_raw raw rest plain full (inl e) =
    rw (e, append-nil) (first_segment-last raw plain full)
first_segment_raw raw rest plain full (inr (t, e)) = rw e (first_segment-inner raw t plain)

pub Head-first_segment :
    {name rest path : Bytes} → Head name rest path → first_segment path ≡ (name, rest)
Head-first_segment {name} {rest} h =
    rw h.parts
      (first_segment_raw h.raw rest h.plain h.full h.behind ∙ ap (λ n. (n, rest)) h.spelled)

pub Head-not_empty : {name rest path : Bytes} → Head name rest path → is_empty path ≡ false
Head-not_empty h = rw h.parts refl

path_unescape-not_empty : (s : Bytes) → is_empty (path_unescape s) ≡ false → is_empty s ≡ false
unfolding path_unescape unescape_from
path_unescape-not_empty [] h = h
path_unescape-not_empty (c ∷ s) h = refl

rooted-Head :
    (t : Bytes)
    → bytes_beq (first_segment (b'/' ∷ t)).0 slash ≡ false
    → is_empty (first_segment (b'/' ∷ t)).0 ≡ false
    → Head (first_segment (b'/' ∷ t)).0 (first_segment (b'/' ∷ t)).1 (b'/' ∷ t)
unfolding first_segment
rooted-Head t other there = elim (Bool-cases (bytes_beq (b'/' ∷ t) slash)) [
  | inl root ↦
      let same : bytes_beq slash slash ≡ true = (bytes_beq_iff slash slash).1 refl in
      absurd (ground (arith, rw root at other))
  | inr longer ↦ rw longer (record {
    raw = before_slash t;
    spelled = refl;
    plain = has_byte-before_slash t;
    full = path_unescape-not_empty (before_slash t) (rw longer at there);
    behind = from_slash-IsTail t;
    parts = ap (λ s. b'/' ∷ s) (sym (before-from t));
  })
]

-- A path behind a slash, whose first segment is no slash and not empty, has it as its head.
pub first_segment-Head :
    (path : Bytes)
    → IsTail path
    → is_empty path ≡ false
    → bytes_beq (first_segment path).0 slash ≡ false
    → is_empty (first_segment path).0 ≡ false
    → Head (first_segment path).0 (first_segment path).1 path
first_segment-Head path (inl e) full other there = absurd (ground (arith, rw e at full))
first_segment-Head path (inr (t, e)) full other there =
    rw e (rooted-Head t (rw e at other) (rw e at there))
