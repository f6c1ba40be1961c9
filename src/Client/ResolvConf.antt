-- ===== src/Client/ResolvConf.antt =====
-- internal/client/local.go: the parser of /etc/resolv.conf, on ASCII text.
pub mod Parsed
mod Tests
use netsee.Client.Routes.{fields, lines}
use netsee.Client.Types.{ResolvConf}
use netsee.Prelude.{List, Option, [], if◌then◌else◌, leb, length, none, some, ℕ, ◌++◌, ◌||◌, ◌∷◌}
use netsee.Prelude.Options.{◌>>=◌}
use netsee.Prelude.Text.{Bytes, bytes_beq, has_prefix, is_empty, utf8}
use netsee.Prelude.Words.{trim_space}

-- The directive of a line: the switch on `fields[0]` and the fields behind it. A missing
-- `fields[1]` leaves the configuration as it is.
directive : Bytes → List Bytes → ResolvConf → ResolvConf
directive keyword rest rc =
    if bytes_beq keyword (utf8 "nameserver")
    then elim rest [ [] ↦ rc | w ∷ ws ↦ record rc { nameservers = rc.nameservers ++ (w ∷ []) } ]
    else if bytes_beq keyword (utf8 "search")
    then record rc { search = rc.search ++ rest }
    else if bytes_beq keyword (utf8 "domain")
    then elim rest [ [] ↦ rc | w ∷ ws ↦ record rc { search = w ∷ [] } ]
    else rc

-- The body of the loop; none where `fields[0]` is out of range.
read_line : Bytes → ResolvConf → Option ResolvConf
read_line text rc =
    let line = trim_space text in
    if is_empty line || has_prefix line (utf8 "#") || has_prefix line (utf8 ";")
    then some rc
    else elim (fields line) [ [] ↦ none | keyword ∷ rest ↦ some (directive keyword rest rc) ]

-- The buffer of `bufio.Scanner`: it stops, without an error that is read, at a line of this length.
max_token : ℕ
max_token = 65536

read_lines : List Bytes → ResolvConf → Option ResolvConf
read_lines [] rc = some rc
read_lines (text ∷ texts) rc =
    if leb max_token (length text)
    then some rc
    else do rc' ← read_line text rc; read_lines texts rc'

pub parse_resolv_conf : Bytes → Option ResolvConf
parse_resolv_conf text = read_lines (lines text) (record { nameservers = []; search = [] })
