-- ===== src/Probe/Mux/Routed.antt =====
-- Where the mux leads a request, against the grammar of the paths.
use netsee.Prelude.{
  All, Bool-cases, List, Option, [], arith, false, inl, inr, none, not, refl, some, true, ◌&&◌,
  ◌++◌, ◌||◌, ◌↔◌, ◌∷◌, ◌≡◌, ◌≢◌, ◌⊎◌,
}
use netsee.Prelude.Text.{Bytes, bytes_beq, bytes_beq_iff, bytes_ne, is_empty, join, utf8}
use netsee.Prelude.Words.{split}
use netsee.Probe.Mux.{
  Dispatch, Endpoint, any_endpoint, bad_request, by_endpoint, dispatch, endpoint_of, first_match,
  get_endpoint, handled, moved, or_else, path_value, reads_only, to_echo, to_info, to_session,
  unrouted,
}
use netsee.Probe.Paths.{clean_path, ends_in_slash, kept_elements, match_segments, slash, wildcard}
use netsee.Probe.Paths.Segments.{IsTail}
use netsee.Probe.Paths.Spelled.{
  IsName, Spells, literals, match-names, match-names_wildcard, names-match, names_wildcard-match,
}
use netsee.Proto.Store.{get}

abbrev pub api_info : List Bytes
api_info = utf8 "api" ∷ utf8 "info" ∷ []

abbrev pub api_session : List Bytes
api_session = utf8 "api" ∷ utf8 "session" ∷ []

-- `/api/info`, in any spelling of its two segments.
abbrev pub IsInfoPath : Bytes → Type 0
IsInfoPath path = Spells api_info path

-- `/api/session/` and one segment, which stands for `id`.
abbrev pub IsSessionPath : Bytes → Bytes → Type 0
IsSessionPath id path = Spells (api_session ++ (id ∷ [])) path × (bytes_beq id slash ≡ false)

-- A path of the API.
abbrev pub IsApiPath : Bytes → Type 0
IsApiPath path = IsInfoPath path ⊎ ((id : Bytes) × IsSessionPath id path)

-- The paths of requests, and what the mux compares them with.
pub record IsCanonical (method target path : Bytes) : Type 0 where
  pub no_star : bytes_beq target (utf8 "*") ≡ false
  pub clean : (bytes_beq method (utf8 "CONNECT") || bytes_beq path (clean_path path)) ≡ true

-- A method for which the patterns with GET count.
abbrev pub IsReading : Bytes → Type 0
IsReading method = (method ≡ utf8 "GET") ⊎ (method ≡ utf8 "HEAD")

-- What each answer of the mux means.
pub data IsRouted (method target path : Bytes) : Dispatch → Type 0 where
  star : bytes_beq target (utf8 "*") ≡ true → IsRouted method target path bad_request
  unclean :
      bytes_beq target (utf8 "*") ≡ false
      → bytes_beq method (utf8 "CONNECT") ≡ false
      → path ≢ clean_path path
      → IsRouted method target path (moved (clean_path path))
  routed_info :
      IsCanonical method target path
      → IsReading method
      → IsInfoPath path
      → IsRouted method target path (handled to_info)
  routed_session :
      (id : Bytes)
      → IsCanonical method target path
      → IsReading method
      → IsSessionPath id path
      → IsRouted method target path (handled (to_session id))
  routed_echo :
      IsCanonical method target path
      → is_empty path ≡ false
      → (IsReading method → IsApiPath path → ⊥)
      → IsRouted method target path (handled to_echo)
  no_path :
      IsCanonical method target path → is_empty path ≡ true → IsRouted method target path unrouted

pub api_info-names : All IsName api_info
unfolding utf8 bytes_beq
api_info-names = ((refl, refl), ((refl, refl), tt))

pub api_session-names : All IsName api_session
unfolding utf8 bytes_beq
api_session-names = ((refl, refl), ((refl, refl), tt))

-- What the patterns with a method come to.
unfoldable pub GetEndpoint : Bytes → Option Endpoint → Type 0
GetEndpoint path none = IsApiPath path → ⊥
GetEndpoint path (some to_info) = IsInfoPath path
GetEndpoint path (some (to_session id)) = IsSessionPath id path
GetEndpoint path (some to_echo) = ⊥

first_match-GetEndpoint :
    (path : Bytes) (info session : Option (List Bytes))
    → IsTail path
    → match_segments (literals api_info []) path ≡ info
    → match_segments (literals api_session (wildcard ∷ [])) path ≡ session
    → GetEndpoint path (first_match info session)
unfolding first_match path_value GetEndpoint
first_match-GetEndpoint path (some values) session t e k =
    match-names api_info values path api_info-names t e
first_match-GetEndpoint path none (some values) t e k =
    let (id, spelled, other, v) =
      match-names_wildcard api_session values path api_session-names t k in
    rw v (spelled, other)
first_match-GetEndpoint path none none t e k = λ h. elim h [
  | inl info ↦ let found = names-match api_info path info in cc
  | inr (id, (spelled, other)) ↦
      let found = names_wildcard-match api_session id path spelled other in cc
]

pub get_endpoint-GetEndpoint : (path : Bytes) → IsTail path → GetEndpoint path (get_endpoint path)
unfolding get_endpoint
get_endpoint-GetEndpoint path t = first_match-GetEndpoint path _ _ t refl refl

clean_path-IsTail : (path : Bytes) → IsTail (clean_path path)
unfolding clean_path
clean_path-IsTail path =
    let elements = kept_elements [] (split b'/' path) in
    elim (Bool-cases (ends_in_slash path && not (bytes_beq (b'/' ∷ join slash elements) slash))) [
      | inl more_slash ↦ rw more_slash (inr (_, refl))
      | inr same ↦ rw same (inr (_, refl))
    ]

pub reads_only_iff : (method : Bytes) → (reads_only method ≡ true) ↔ IsReading method
unfolding reads_only
reads_only_iff method = (forth, back)
  where
    forth : reads_only method ≡ true → IsReading method
    forth h = elim (Bool-cases (bytes_beq method (utf8 "GET"))) [
      | inl get ↦ inl ((bytes_beq_iff method (utf8 "GET")).0 get)
      | inr other ↦ inr ((bytes_beq_iff method (utf8 "HEAD")).0 (rw other at h))
    ]

    back : IsReading method → reads_only method ≡ true
    back (inl e) = rw e (unfold bytes_beq utf8 in refl)
    back (inr e) = rw e (unfold bytes_beq utf8 in refl)

-- GET and HEAD are not CONNECT.
IsReading-not_connect :
    (method : Bytes) → IsReading method → bytes_beq method (utf8 "CONNECT") ≡ false
IsReading-not_connect method (inl e) = rw e (unfold bytes_beq utf8 in refl)
IsReading-not_connect method (inr e) = rw e (unfold bytes_beq utf8 in refl)

pub IsCanonical-IsTail :
    {method target path : Bytes} → IsCanonical method target path → IsReading method → IsTail path
IsCanonical-IsTail {method} {target} {path} c r =
    let tested = rw (IsReading-not_connect method r) at c.clean in
    let e : path ≡ clean_path path = (bytes_beq_iff path (clean_path path)).0 tested in
    rw e (clean_path-IsTail path)

any_endpoint-IsRouted :
    (method target path : Bytes)
    → IsCanonical method target path
    → (IsReading method → IsApiPath path → ⊥)
    → IsRouted method target path (by_endpoint (any_endpoint path))
unfolding any_endpoint by_endpoint match_segments
any_endpoint-IsRouted method target [] c other = no_path c refl
any_endpoint-IsRouted method target (b ∷ path) c other = routed_echo c refl other

or_else-IsRouted :
    (method target path : Bytes) (o : Option Endpoint)
    → IsCanonical method target path
    → IsReading method
    → GetEndpoint path o
    → IsRouted method target path (by_endpoint (or_else o (any_endpoint path)))
unfolding or_else by_endpoint GetEndpoint
or_else-IsRouted method target path none c r g = any_endpoint-IsRouted method target path c (λ _. g)
or_else-IsRouted method target path (some to_info) c r g = routed_info c r g
or_else-IsRouted method target path (some (to_session id)) c r g = routed_session id c r g
or_else-IsRouted method target path (some to_echo) c r g = elim g [ ]

-- The mux on a path that it does not clean.
endpoint_of-IsRouted :
    (method target path : Bytes)
    → IsCanonical method target path
    → IsRouted method target path (by_endpoint (endpoint_of method path))
unfolding endpoint_of or_else
endpoint_of-IsRouted method target path c = elim (Bool-cases (reads_only method)) [
  | inl r ↦
      let reading = (reads_only_iff method).0 r in
      rw r (
        or_else-IsRouted method target path (get_endpoint path) c reading
          (get_endpoint-GetEndpoint path (IsCanonical-IsTail c reading)))
  | inr w ↦ rw w (
      any_endpoint-IsRouted method target path c
        (λ g. absurd (let r = (reads_only_iff method).1 g in cc)))
]

-- The answer of the mux is one that `IsRouted` allows.
pub dispatch-IsRouted :
    (method target path : Bytes) → IsRouted method target path (dispatch method target path)
unfolding dispatch
dispatch-IsRouted method target path = elim (Bool-cases (bytes_beq target (utf8 "*"))) [
  | inl hit ↦ rw hit (star hit)
  | inr away ↦
      elim (Bool-cases (bytes_beq method (utf8 "CONNECT") || bytes_beq path (clean_path path))) [
        | inl clean ↦
            rw (away, clean)
              (endpoint_of-IsRouted method target path (record { no_star = away; clean = clean }))
        | inr other ↦
            rw (away, other)
              (unclean away (ground (arith, other))
                (bytes_ne path (clean_path path) (ground (arith, other))))
      ]
]
