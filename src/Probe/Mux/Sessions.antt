-- ===== src/Probe/Mux/Sessions.antt =====
-- The paths of sessions whose identifier is valid.
use netsee.Prelude.{
  Bool-cases, [], ap, append-nil, arith, false, inl, inr, refl, some, sym, true, ℕ, ◌++◌, ◌==◌, ◌∷◌,
  ◌≡◌,
}
use netsee.Prelude.Hosts.{has_byte}
use netsee.Prelude.Text.{Bytes, bytes_beq, bytes_beq_iff, is_empty, join, utf8}
use netsee.Probe.Mux.{dispatch, handled, to_session}
use netsee.Probe.Mux.Exact.{dispatch-IsRouted_iff}
use netsee.Probe.Mux.Routed.{IsSessionPath, routed_session}
use netsee.Probe.Paths.{clean_path, path_unescape, slash, unescape_from, with_byte}
use netsee.Probe.Paths.Cleaned.{IsElement, clean_path-join}
use netsee.Probe.Paths.Segments.{Head, IsTail}
use netsee.Proto.SessionId.{is_hex, valid_session_id}
use netsee.Proto.SessionId.Laws.{valid-not_empty}
use netsee.Proto.SessionId.Plain.{is_id_byte, valid-has_byte}

unescape_from-plain : (s : Bytes) → has_byte b'%' s ≡ false → unescape_from 0 s ≡ some s
unfolding unescape_from with_byte has_byte
unescape_from-plain [] h = refl
unescape_from-plain (c ∷ s) h = elim (Bool-cases (c == b'%')) [
  | inl escape ↦ absurd (ground (arith, h, escape))
  | inr other ↦ rw (unescape_from, other) (ap (with_byte c) (unescape_from-plain s (rw other at h)))
]

path_unescape-plain : (s : Bytes) → has_byte b'%' s ≡ false → path_unescape s ≡ s
unfolding path_unescape
path_unescape-plain s h = rw (path_unescape, unescape_from-plain s h) refl

-- A text without a byte differs from one that has it.
has_byte-ne :
    (c : ℕ) (s t : Bytes) → has_byte c s ≡ false → has_byte c t ≡ true → bytes_beq s t ≡ false
has_byte-ne c s t h k = elim (Bool-cases (bytes_beq s t)) [
  | inl same ↦ let e : s ≡ t = (bytes_beq_iff s t).0 same in absurd (let k' = rw (← e) at k in cc)
  | inr other ↦ other
]

valid-IsElement : (id : Bytes) → valid_session_id id ≡ true → IsElement id
unfolding is_id_byte is_hex utf8 has_byte
valid-IsElement id ok = record {
  plain = valid-has_byte b'/' id ok refl;
  full = valid-not_empty id ok;
  not_dot = has_byte-ne b'.' id (utf8 ".") (valid-has_byte b'.' id ok refl) refl;
  not_dots = has_byte-ne b'.' id (utf8 "..") (valid-has_byte b'.' id ok refl) refl;
}

literal-Head :
    (s : Bytes) (t : Bytes)
    → has_byte b'/' s ≡ false
    → has_byte b'%' s ≡ false
    → is_empty s ≡ false
    → IsTail t
    → Head s t (b'/' ∷ (s ++ t))
literal-Head s t plain unescaped full tail = record {
  raw = s;
  spelled = path_unescape-plain s unescaped;
  plain = plain;
  full = full;
  behind = tail;
  parts = refl;
}

-- The path of `Pull` is that of its session.
pub valid-IsSessionPath :
    (id : Bytes) → valid_session_id id ≡ true → IsSessionPath id (utf8 "/api/session/" ++ id)
unfolding is_id_byte is_hex utf8 has_byte
valid-IsSessionPath id ok =
    let e = valid-IsElement id ok in
    (
      (
        b'/' ∷ (utf8 "session/" ++ id),
        literal-Head (utf8 "api") _ refl refl refl (inr (_, refl)),
        (
          b'/' ∷ id,
          literal-Head (utf8 "session") _ refl refl refl (inr (_, refl)),
          (
            [],
            rw (append-nil id) at
                (literal-Head id [] e.plain (valid-has_byte b'%' id ok refl) e.full (inl refl)),
            refl,
          ),
        ),
      ),
      has_byte-ne b'/' id slash e.plain refl,
    )

-- And it is clean.
pub valid-clean_path :
    (id : Bytes)
    → valid_session_id id ≡ true
    → clean_path (utf8 "/api/session/" ++ id) ≡ utf8 "/api/session/" ++ id
unfolding is_id_byte is_hex utf8 has_byte bytes_beq join
valid-clean_path id ok = clean_path-join (utf8 "api") (utf8 "session" ∷ id ∷ []) (
  record { plain = refl; full = refl; not_dot = refl; not_dots = refl },
  (
    record { plain = refl; full = refl; not_dot = refl; not_dots = refl },
    (valid-IsElement id ok, tt),
  ),
)

-- `Pull`'s request reaches the handler of its session.
pub dispatch-session_path :
    (id target : Bytes)
    → valid_session_id id ≡ true
    → bytes_beq target (utf8 "*") ≡ false
    → dispatch (utf8 "GET") target (utf8 "/api/session/" ++ id) ≡ handled (to_session id)
unfolding bytes_beq utf8
dispatch-session_path id target ok away =
    let path = utf8 "/api/session/" ++ id in
    let same : bytes_beq path (clean_path path) ≡ true =
      (bytes_beq_iff path (clean_path path)).1 (sym (valid-clean_path id ok)) in
    (dispatch-IsRouted_iff (utf8 "GET") target path (handled (to_session id))).1 (
      routed_session id (record { no_star = away; clean = same }) (inl refl)
        (valid-IsSessionPath id ok))
