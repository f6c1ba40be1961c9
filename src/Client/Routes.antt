-- ===== src/Client/Routes.antt =====
-- internal/client/local_linux.go: the default routes in the text of /proc/net/route and
-- /proc/net/ipv6_route. `strconv.Atoi` with its error dropped is a parameter.
pub mod Lowest
pub mod Physical
pub mod Words
pub mod Chosen
mod Tests
use mathlib.Core.Option
use netsee.Client.Attribution.{is_tun_interface}
use netsee.Prelude.{
  Bool, List, Option, [], false, get_or, if◌then◌else◌, leb, length, ltb, none, not, some, true, ℕ,
  ◌%◌, ◌*◌, ◌++◌, ◌+◌, ◌-◌, ◌/◌, ◌==◌, ◌^◌, ◌||◌, ◌∷◌,
}
use netsee.Prelude.Int.{ltb_ℤ, negsuc, pos, ℤ}
use netsee.Prelude.Text.{Bytes, bytes_beq, is_empty, utf8}
use netsee.Prelude.Words.{is_space, itoa, split}
use netsee.Proto.SessionId.{is_hex}

-- `strings.Split(s, "\n")`
pub lines : Bytes → List Bytes
lines s = split 10 s

-- `strings.Fields` on ASCII text, with the word that is being read.
fields_from : Bytes → Bytes → List Bytes
fields_from word [] = if is_empty word then [] else word ∷ []
fields_from word (c ∷ s) = elim (is_space c) [
  | true ↦ if is_empty word then fields_from [] s else word ∷ fields_from [] s
  | false ↦ fields_from (word ++ (c ∷ [])) s
]

pub fields : Bytes → List Bytes
fields s = fields_from [] s

hex_value : ℕ → ℕ
hex_value c = if leb c b'9' then c - b'0' else if leb c b'F' then c - b'A' + 10 else c - b'a' + 10

hex_digits : ℕ → Bytes → Option ℕ
hex_digits n [] = some n
hex_digits n (c ∷ s) = elim (is_hex c) [ true ↦ hex_digits (n * 16 + hex_value c) s | false ↦ none ]

-- `strconv.ParseUint(s, 16, 32)`
pub parse_hex : Bytes → Option ℕ
unfolding hex_digits hex_value
parse_hex [] = none
parse_hex (c ∷ s) = elim (hex_digits 0 (c ∷ s)) [
  | none ↦ none
  | some n ↦ if ltb n (2 ^ 32) then some n else none
]

-- `hexLEToIPv4`
pub hex_le_to_ipv4 : Bytes → Bytes
hex_le_to_ipv4 h = elim (parse_hex h) [
  | none ↦ []
  | some v ↦
      itoa (v % 256)
      ++ (b'.'
          ∷ (itoa (v / 256 % 256)
              ++ (b'.' ∷ (itoa (v / 65536 % 256) ++ (b'.' ∷ itoa (v / 16777216 % 256))))))
]

-- What a line that is not skipped gives.
pub record Route : Type 0 where
  pub iface : Bytes
  pub gw : Bytes
  pub metric : ℤ

-- `fields[i]`, for an index that is in range.
field : List Bytes → ℕ → Bytes
field fs i = get_or fs i []

-- `flags&0x1 != 0`, with the error of `ParseUint`.
is_up : Option ℕ → Bool
is_up none = false
is_up (some flags) = flags % 2 == 1

-- The tests of `parseRouteV4` on a line.
pub route_v4 : (Bytes → ℤ) → Bytes → Option Route
unfolding field is_up
route_v4 atoi line =
    let fs = fields line in
    if ltb (length fs) 11
    then none
    else if not (bytes_beq (field fs 1) (utf8 "00000000"))
    then none
    else if not (is_up (parse_hex (field fs 3)))
    then none
    else some (record {
      iface = field fs 0;
      gw = hex_le_to_ipv4 (field fs 2);
      metric = atoi (field fs 6);
    })

-- The tests of `parsePhysicalV4`: a TUN's route is skipped too.
pub physical_v4 : (Bytes → ℤ) → Bytes → Option Route
unfolding field is_up
physical_v4 atoi line =
    let fs = fields line in
    if ltb (length fs) 11 || not (bytes_beq (field fs 1) (utf8 "00000000"))
    then none
    else if is_tun_interface (field fs 0)
    then none
    else if not (is_up (parse_hex (field fs 3)))
    then none
    else some (record {
      iface = field fs 0;
      gw = hex_le_to_ipv4 (field fs 2);
      metric = atoi (field fs 6);
    })

-- The tests of `parseRouteV6`; the file has no gateway.
pub route_v6 : Bytes → Option Route
unfolding field
route_v6 line =
    let fs = fields line in
    if ltb (length fs) 10
    then none
    else if not (bytes_beq (field fs 0) (utf8 "00000000000000000000000000000000"))
        || not (bytes_beq (field fs 1) (utf8 "00"))
    then none
    else elim (parse_hex (field fs 4)) [
      | none ↦ none
      | some metric ↦ some (record { iface = field fs 9; gw = []; metric = pos metric })
    ]

-- The loop over the lines: `bestMetric` starts at -1, and a lower metric replaces it.
pub pick : Route → Route → Route
pick best r = if ltb_ℤ best.metric (pos 0) || ltb_ℤ r.metric best.metric then r else best

pub scan : (Bytes → Option Route) → Route → List Bytes → Route
scan route_of best [] = best
scan route_of best (line ∷ rest) = elim (route_of line) [
  | none ↦ scan route_of best rest
  | some r ↦ scan route_of (pick best r) rest
]

abbrev pub no_route : Route
no_route = record { iface = []; gw = []; metric = negsuc 0 }

-- Behind the loop: an empty interface is the error of no default route.
found_route : Route → Option (Bytes × Bytes)
found_route best = if is_empty best.iface then none else some (best.iface, best.gw)

pub parse_route_v4 : (Bytes → ℤ) → Bytes → Option (Bytes × Bytes)
unfolding found_route
parse_route_v4 atoi text = found_route (scan (route_v4 atoi) no_route (lines text))

pub parse_physical_v4 : (Bytes → ℤ) → Bytes → Option (Bytes × Bytes)
unfolding found_route
parse_physical_v4 atoi text = found_route (scan (physical_v4 atoi) no_route (lines text))

pub parse_route_v6 : Bytes → Option Bytes
unfolding found_route
parse_route_v6 text = Option.map (λ r. r.0) (found_route (scan route_v6 no_route (lines text)))
