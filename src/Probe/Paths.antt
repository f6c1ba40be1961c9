-- ===== src/Probe/Paths.antt =====
-- internal/probe/server.go: how the `http.ServeMux` of `Start` reads a path. The standard library's
-- rules: segments are unescaped one by one, and a path is compared with its cleaned form.
pub mod Segments
pub mod Spelled
pub mod Cleaned
use netsee.Prelude.{
  Bool, List, Option, [], drop, false, if◌then◌else◌, leb, none, not, some, suc, true, zero, ℕ,
  ◌&&◌, ◌*◌, ◌++◌, ◌+◌, ◌-◌, ◌==◌, ◌||◌, ◌∷◌,
}
use netsee.Prelude.Text.{Bytes, bytes_beq, is_empty, join, utf8}
use netsee.Prelude.Words.{split}
use netsee.Proto.SessionId.{is_hex}

-- What stands before the first `/`, and the rest from it on.
unfoldable pub before_slash : Bytes → Bytes
before_slash [] = []
before_slash (c ∷ s) = let rest = before_slash s in if c == b'/' then [] else c ∷ rest

unfoldable pub from_slash : Bytes → Bytes
from_slash [] = []
from_slash (c ∷ s) = let rest = from_slash s in if c == b'/' then c ∷ s else rest

unfoldable pub unhex : ℕ → ℕ
unhex c = if leb c b'9' then c - b'0' else if leb c b'F' then c - b'A' + 10 else c - b'a' + 10

-- The byte that two hexadecimal digits stand for.
unfoldable pub hex_pair : Bytes → Option ℕ
hex_pair (h ∷ l ∷ s) = if is_hex h && is_hex l then some (unhex h * 16 + unhex l) else none
hex_pair _ = none

unfoldable pub with_byte : ℕ → Option Bytes → Option Bytes
with_byte b none = none
with_byte b (some t) = some (b ∷ t)

-- `url.PathUnescape` behind `skip` digits that were read; none for an escape that is malformed.
unfoldable pub unescape_from : ℕ → Bytes → Option Bytes
unescape_from skip [] = some []
unescape_from (suc skip) (c ∷ s) = unescape_from skip s
unescape_from zero (c ∷ s) = elim (c == b'%') [
  | true ↦ elim (hex_pair s) [ none ↦ none | some b ↦ with_byte b (unescape_from 2 s) ]
  | false ↦ with_byte c (unescape_from 0 s)
]

-- `pathUnescape` of the mux: a malformed text stays as it is.
unfoldable pub path_unescape : Bytes → Bytes
path_unescape s = elim (unescape_from 0 s) [ none ↦ s | some t ↦ t ]

abbrev pub slash : Bytes
slash = b'/' ∷ []

-- `firstSegment`: the first segment of a path, unescaped, and the rest.
unfoldable pub first_segment : Bytes → Bytes × Bytes
first_segment path =
    if bytes_beq path slash
    then (slash, [])
    else (path_unescape (before_slash (drop 1 path)), from_slash (drop 1 path))

-- A segment of a pattern: a literal, `{id}`, or what a trailing `/` stands for.
pub data Segment : Type 0 where
  literal : Bytes → Segment
  wildcard : Segment
  remainder : Segment

-- The values of the wildcards, if the pattern matches the path.
unfoldable pub match_segments : List Segment → Bytes → Option (List Bytes)
match_segments [] path = if is_empty path then some [] else none
match_segments (literal s ∷ pattern') path =
    let (seg, rest) = first_segment path in
    let matched = match_segments pattern' rest in
    if not (is_empty path) && bytes_beq seg s then matched else none
match_segments (wildcard ∷ pattern') path =
    let (seg, rest) = first_segment path in
    let matched = match_segments pattern' rest in
    if is_empty path || bytes_beq seg slash
    then none
    else elim matched [ none ↦ none | some values ↦ some (seg ∷ values) ]
match_segments (remainder ∷ pattern') path = if is_empty path then none else some []

unfoldable pub drop_last : List Bytes → List Bytes
drop_last [] = []
drop_last (s ∷ []) = []
drop_last (s ∷ t ∷ l) = s ∷ drop_last (t ∷ l)

-- The elements that `path.Clean` keeps of a rooted path, behind those kept so far.
unfoldable pub kept_elements : List Bytes → List Bytes → List Bytes
kept_elements kept [] = kept
kept_elements kept (s ∷ l) =
    if is_empty s || bytes_beq s (utf8 ".")
    then kept_elements kept l
    else if bytes_beq s (utf8 "..")
    then kept_elements (drop_last kept) l
    else kept_elements (kept ++ (s ∷ [])) l

unfoldable pub ends_in_slash : Bytes → Bool
ends_in_slash [] = false
ends_in_slash (c ∷ []) = c == b'/'
ends_in_slash (c ∷ d ∷ s) = ends_in_slash (d ∷ s)

-- `cleanPath` of the mux: `path.Clean`, with a slash at the end where there was one.
unfoldable pub clean_path : Bytes → Bytes
clean_path path =
    let elements = kept_elements [] (split b'/' path) in
    let cleaned = b'/' ∷ join slash elements in
    if ends_in_slash path && not (bytes_beq cleaned slash) then cleaned ++ slash else cleaned
