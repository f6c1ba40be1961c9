-- ===== src/Probe/Mux/Exact.antt =====
-- The grammar of the paths decides what the mux does.
use netsee.Prelude.{
  Bool-cases, List, Option, [], ap, false, inl, inr, none, refl, some, sym, true, ◌↔◌, ◌∙◌, ◌∷◌,
  ◌≡◌,
}
use netsee.Prelude.Text.{Bytes, beq_ne, is_empty, utf8}
use netsee.Probe.Mux.{
  Dispatch, Endpoint, any_endpoint, bad_request, by_endpoint, dispatch, endpoint_of, first_match,
  get_endpoint, handled, info_pattern, or_else, path_value, reads_only, session_pattern, to_echo,
  to_info, to_session, unrouted,
}
use netsee.Probe.Mux.Routed.{
  GetEndpoint, IsApiPath, IsCanonical, IsCanonical-IsTail, IsInfoPath, IsRouted, IsSessionPath,
  api_info, api_info-names, api_session, dispatch-IsRouted, get_endpoint-GetEndpoint, no_path,
  reads_only_iff, routed_echo, routed_info, routed_session, star, unclean,
}
use netsee.Probe.Paths.{clean_path, match_segments}
use netsee.Probe.Paths.Segments.{Head, Head-first_segment, IsTail}
use netsee.Probe.Paths.Spelled.{literals, match-names, names-match, names_wildcard-match}

-- A path has one first segment.
Head-eq :
    {a b rest behind path : Bytes}
    → Head a rest path
    → Head b behind path
    → (a ≡ b) × (rest ≡ behind)
Head-eq {a} {b} {rest} {behind} h k =
    let e : (a, rest) ≡ (b, behind) = sym (Head-first_segment h) ∙ Head-first_segment k in
    (ap (λ q. q.0) e, ap (λ q. q.1) e)

-- The path of a session is not that of the information.
session-not_info : (id path : Bytes) → IsSessionPath id path → IsInfoPath path → ⊥
session-not_info id path ((rest, first, (rest', second, last)), other)
      (tail, first', (tail', second', e)) =
    let same = (Head-eq first first').1 in
    let (clash, _) = Head-eq (rw same at second) second' in unfold utf8 in cc

get_endpoint-info : (path : Bytes) → IsInfoPath path → get_endpoint path ≡ some to_info
unfolding get_endpoint first_match
get_endpoint-info path h =
    ap (λ o. first_match o (match_segments session_pattern path)) (names-match api_info path h)

first_match-session :
    (id path : Bytes) (info : Option (List Bytes))
    → IsSessionPath id path
    → match_segments (literals api_info []) path ≡ info
    → first_match info (some (id ∷ [])) ≡ some (to_session id)
unfolding first_match path_value
first_match-session id path none h e = refl
first_match-session id path (some values) h e =
    let ((rest, head, _), _) = h in
    let info_path = match-names api_info values path api_info-names (inr (_, head.parts)) e in
    absurd (session-not_info id path h info_path)

get_endpoint-session :
    (id path : Bytes) → IsSessionPath id path → get_endpoint path ≡ some (to_session id)
unfolding get_endpoint
get_endpoint-session id path (spelled, other) =
    ap (λ o. first_match (match_segments info_pattern path) o)
      (names_wildcard-match api_session id path spelled other)
    ∙ first_match-session id path _ (spelled, other) refl

get_endpoint-none : (path : Bytes) → IsTail path → (IsApiPath path → ⊥) → get_endpoint path ≡ none
unfolding GetEndpoint
get_endpoint-none path t free = only_none (get_endpoint path) (get_endpoint-GetEndpoint path t)
  where
    only_none : (o : Option Endpoint) → GetEndpoint path o → o ≡ none
    only_none none g = refl
    only_none (some to_info) g = absurd (free (inl g))
    only_none (some (to_session id)) g = absurd (free (inr (id, g)))
    only_none (some to_echo) g = absurd g

-- A request that the mux takes as it is goes where its path leads.
IsCanonical-dispatch :
    {method target path : Bytes} (e : Endpoint)
    → IsCanonical method target path
    → endpoint_of method path ≡ some e
    → dispatch method target path ≡ handled e
unfolding dispatch by_endpoint
IsCanonical-dispatch e c h = rw (c.no_star, c.clean, h) refl

get-dispatch :
    {method target path : Bytes} (e : Endpoint)
    → IsCanonical method target path
    → reads_only method ≡ true
    → get_endpoint path ≡ some e
    → dispatch method target path ≡ handled e
get-dispatch {method} {target} {path} e c r h =
    IsCanonical-dispatch e c (unfold endpoint_of or_else in rw (r, h) refl)

-- A path that is not one of the API, or that only a GET would find there.
endpoint_of-any :
    (method path : Bytes)
    → (reads_only method ≡ true → get_endpoint path ≡ none)
    → endpoint_of method path ≡ any_endpoint path
unfolding endpoint_of or_else
endpoint_of-any method path free = elim (Bool-cases (reads_only method)) [
  | inl r ↦ rw (r, free r) refl
  | inr w ↦ rw w refl
]

any_endpoint-echo : (path : Bytes) → is_empty path ≡ false → any_endpoint path ≡ some to_echo
unfolding any_endpoint match_segments
any_endpoint-echo [] h = cc
any_endpoint-echo (c ∷ path) h = refl

no_path-dispatch :
    (method target path : Bytes)
    → IsCanonical method target path
    → is_empty path ≡ true
    → dispatch method target path ≡ unrouted
unfolding dispatch by_endpoint get_endpoint first_match any_endpoint match_segments
no_path-dispatch method target [] c empty =
    rw (c.no_star, c.clean, endpoint_of-any method [] (λ _. refl)) refl
no_path-dispatch method target (b ∷ path) c empty = cc

IsRouted-dispatch :
    (method target path : Bytes) (d : Dispatch)
    → IsRouted method target path d
    → dispatch method target path ≡ d
IsRouted-dispatch method target path bad_request (star hit) = unfold dispatch in rw hit refl
IsRouted-dispatch method target path d (unclean away plain ne) =
    let changed = beq_ne path (clean_path path) ne in
    unfold dispatch in rw (away, plain, changed) refl
IsRouted-dispatch method target path d (routed_info c r h) =
    get-dispatch to_info c ((reads_only_iff method).1 r) (get_endpoint-info path h)
IsRouted-dispatch method target path d (routed_session id c r h) =
    get-dispatch (to_session id) c ((reads_only_iff method).1 r) (get_endpoint-session id path h)
IsRouted-dispatch method target path d (routed_echo c full free) = IsCanonical-dispatch to_echo c (
    endpoint_of-any method path (λ r.
      let g = (reads_only_iff method).0 r in
      get_endpoint-none path (IsCanonical-IsTail c g) (free g))
    ∙ any_endpoint-echo path full)
IsRouted-dispatch method target path d (no_path c empty) =
    no_path-dispatch method target path c empty

-- The mux gives an answer exactly if `IsRouted` says so: the status 400 to the target `*`; of other
-- requests, a redirection to the cleaned path where the path is not clean and the method not
-- CONNECT; of the rest, GET and HEAD of `/api/info` and of `/api/session/` with one segment more,
-- every segment unescaped and the last one no slash, to their handlers, with that segment as the
-- session; any other request that has a path to the echo; and an error to one that has none.
pub dispatch-IsRouted_iff :
    (method target path : Bytes) (d : Dispatch)
    → (dispatch method target path ≡ d) ↔ IsRouted method target path d
dispatch-IsRouted_iff method target path d =
    (λ h. rw h at (dispatch-IsRouted method target path), IsRouted-dispatch method target path d)
