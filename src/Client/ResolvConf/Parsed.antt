-- ===== src/Client/ResolvConf/Parsed.antt =====
-- What the parser of resolv.conf gives.
use netsee.Client.ResolvConf.{directive, max_token, parse_resolv_conf, read_line, read_lines}
use netsee.Client.Routes.{fields, lines}
use netsee.Client.Routes.Words.{IsWord, fields-IsWord, fields-ne-nil}
use netsee.Client.Types.{ResolvConf}
use netsee.Prelude.{
  All, All-append, Bool-cases, List, Option, [], arith, false, inl, inr, leb, length, none, refl,
  some, ◌++◌, ◌||◌, ◌∷◌, ◌≡◌, ◌≢◌,
}
use netsee.Prelude.Options.{◌>>=◌}
use netsee.Prelude.Text.{Bytes, bytes_beq, has_prefix, is_empty, utf8}
use netsee.Prelude.Words.{is_space, trim_left, trim_right, trim_space}

pub record HasWords (rc : ResolvConf) : Type 0 where
  pub servers : All IsWord rc.nameservers
  pub domains : All IsWord rc.search

abbrev pub Parses : Option ResolvConf → Type 0
Parses none = ⊥
Parses (some rc) = HasWords rc

-- What is left of a line starts with no space.
abbrev StartsInside : Bytes → Type 0
StartsInside [] = Unit
StartsInside (c ∷ s) = is_space c ≡ false

trim_left-StartsInside : (s : Bytes) → StartsInside (trim_left s)
unfolding trim_left
trim_left-StartsInside [] = tt
trim_left-StartsInside (c ∷ s) = elim (Bool-cases (is_space c)) [
  | inl space ↦ rw space (trim_left-StartsInside s)
  | inr inside ↦ rw inside inside
]

trim_right-StartsInside : (s : Bytes) → StartsInside s → StartsInside (trim_right s)
unfolding trim_right
trim_right-StartsInside [] h = tt
trim_right-StartsInside (c ∷ s) h = rw h h

fields-trimmed : (line : Bytes) → StartsInside line → is_empty line ≡ false → fields line ≢ []
fields-trimmed [] h e = absurd (ground arith)
fields-trimmed (c ∷ s) h e = fields-ne-nil c s h

directive-HasWords :
    (keyword : Bytes) (rest : List Bytes) (rc : ResolvConf)
    → All IsWord rest
    → HasWords rc
    → HasWords (directive keyword rest rc)
unfolding directive
directive-HasWords keyword rest rc w h = elim (Bool-cases (bytes_beq keyword (utf8 "nameserver"))) [
  | inl server ↦ rw server (with_server rest w)
  | inr no_server ↦ elim (Bool-cases (bytes_beq keyword (utf8 "search"))) [
    | inl search ↦
        rw (no_server, search)
          (record { servers = h.servers; domains = All-append IsWord rc.search rest h.domains w })
    | inr no_search ↦ elim (Bool-cases (bytes_beq keyword (utf8 "domain"))) [
      | inl domain ↦ rw (no_server, no_search, domain) (with_domain rest w)
      | inr other ↦ rw (no_server, no_search, other) h
    ]
  ]
]
  where
    with_server :
        (ws : List Bytes)
        → All IsWord ws
        → HasWords
            (elim ws [ [] ↦ rc | w ∷ ws ↦ record rc { nameservers = rc.nameservers ++ (w ∷ []) } ])
    with_server [] k = h
    with_server (w ∷ ws) k = record {
      servers = All-append IsWord rc.nameservers (w ∷ []) h.servers (k.0, tt);
      domains = h.domains;
    }

    with_domain :
        (ws : List Bytes)
        → All IsWord ws
        → HasWords (elim ws [ [] ↦ rc | w ∷ ws ↦ record rc { search = w ∷ [] } ])
    with_domain [] k = h
    with_domain (w ∷ ws) k = record { servers = h.servers; domains = (k.0, tt) }

-- The words of a line that is neither empty nor a comment.
words-Parses :
    (fs : List Bytes) (rc : ResolvConf)
    → All IsWord fs
    → fs ≢ []
    → HasWords rc
    → Parses (elim fs [ [] ↦ none | keyword ∷ rest ↦ some (directive keyword rest rc) ])
words-Parses [] rc w ne h = absurd (ne refl)
words-Parses (keyword ∷ rest) rc w ne h = directive-HasWords keyword rest rc w.1 h

read_line-Parses : (text : Bytes) (rc : ResolvConf) → HasWords rc → Parses (read_line text rc)
unfolding read_line trim_space
read_line-Parses text rc h =
    let line = trim_right (trim_left text) in
    let inside = trim_right-StartsInside (trim_left text) (trim_left-StartsInside text) in
    elim (Bool-cases (is_empty line || has_prefix line (utf8 "#") || has_prefix line (utf8 ";"))) [
      | inl skipped ↦ rw skipped h
      | inr read ↦ rw read (
          words-Parses (fields line) rc (fields-IsWord line)
            (fields-trimmed line inside (ground arith)) h)
    ]

Parses-bind :
    (r : Option ResolvConf) (f : ResolvConf → Option ResolvConf)
    → Parses r
    → ((rc : ResolvConf) → HasWords rc → Parses (f rc))
    → Parses (do rc ← r; f rc)
Parses-bind none f p g = absurd p
Parses-bind (some rc) f p g = g rc p

read_lines-Parses :
    (texts : List Bytes) (rc : ResolvConf) → HasWords rc → Parses (read_lines texts rc)
unfolding read_lines
read_lines-Parses [] rc h = h
read_lines-Parses (text ∷ texts) rc h = elim (Bool-cases (leb max_token (length text))) [
  | inl long ↦ rw long h
  | inr fits ↦ rw fits (
      Parses-bind (read_line text rc) (read_lines texts) (read_line-Parses text rc h)
        (λ rc' k. read_lines-Parses texts rc' k))
]

-- The parser gives a configuration for every file: `fields[0]` is never out of range. Each of the
-- name servers and search domains in it is a non-empty word.
pub parse_resolv_conf-Parses : (text : Bytes) → Parses (parse_resolv_conf text)
unfolding parse_resolv_conf
parse_resolv_conf-Parses text =
    read_lines-Parses (lines text) _ (record { servers = tt; domains = tt })
