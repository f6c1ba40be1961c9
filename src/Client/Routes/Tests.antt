-- ===== src/Client/Routes/Tests.antt =====
-- A table with two default routes, the lower one through a TUN.
use netsee.Client.Attribution.{is_tun_interface}
use netsee.Client.Routes.{
  Route, field, fields, fields_from, found_route, hex_digits, hex_le_to_ipv4, hex_value, is_up,
  lines, parse_hex, parse_physical_v4, parse_route_v4, physical_v4, pick, route_v4, scan,
}
use netsee.Client.Routes.Chosen.{IsChosen, parse_physical_v4-IsChosen}
use netsee.Client.Routes.Lowest.{IsCounted, routes_of}
use netsee.Client.Routes.Physical.{IsPhysical}
use netsee.Prelude.{All, [], refl, some, ◌++◌, ◌-◌, ◌↔◌, ◌∷◌, ◌≡◌}
use netsee.Prelude.Int.{pos, ℤ}
use netsee.Prelude.Text.{Bytes, bytes_beq, has_prefix, utf8}
use netsee.Prelude.Words.{digits_of, is_space, itoa, split, split_from}
use netsee.Proto.SessionId.{is_hex}

abbrev digit_of : Bytes → ℤ
digit_of [] = pos 0
digit_of (c ∷ s) = pos (c - b'0')

abbrev table : Bytes
table =
    utf8 "eth0 00000000 0100A8C0 0003 0 0 5 00000000 0 0 0"
    ++ (10 ∷ utf8 "tun0 00000000 00000000 0001 0 0 2 00000000 0 0 0")

default_route : parse_route_v4 digit_of table ≡ some (utf8 "tun0", utf8 "0.0.0.0")
unfolding parse_route_v4 found_route scan pick route_v4 field is_up lines split split_from fields
    fields_from is_space parse_hex hex_digits hex_value hex_le_to_ipv4 is_hex itoa digits_of
    bytes_beq utf8
default_route = refl

physical_route : parse_physical_v4 digit_of table ≡ some (utf8 "eth0", utf8 "192.168.0.1")
unfolding parse_physical_v4 found_route scan pick physical_v4 field is_up lines split split_from
    fields fields_from is_space parse_hex hex_digits hex_value hex_le_to_ipv4 is_hex itoa digits_of
    bytes_beq utf8 is_tun_interface has_prefix
physical_route = refl

table-IsCounted : All IsCounted (routes_of (route_v4 digit_of) (lines table))
unfolding routes_of route_v4 field is_up lines split split_from fields fields_from is_space
    parse_hex hex_digits hex_value hex_le_to_ipv4 is_hex itoa digits_of bytes_beq utf8
table-IsCounted = (refl, (refl, tt))

physical-IsCounted : All IsCounted (routes_of (physical_v4 digit_of) (lines table))
unfolding routes_of physical_v4 field is_up lines split split_from fields fields_from is_space
    parse_hex hex_digits hex_value hex_le_to_ipv4 is_hex itoa digits_of bytes_beq utf8
    is_tun_interface has_prefix
physical-IsCounted = (refl, tt)

parse_physical_v4-IsChosen_example :
    IsChosen (routes_of (physical_v4 digit_of) (lines table)) (parse_physical_v4 digit_of table)
    × ((line : Bytes) (r : Route)
        → (physical_v4 digit_of line ≡ some r) ↔ IsPhysical digit_of line r)
parse_physical_v4-IsChosen_example = parse_physical_v4-IsChosen digit_of table physical-IsCounted
