-- ===== src/Client/ResolvConf/Tests.antt =====
-- A small file.
use netsee.Client.ResolvConf.{parse_resolv_conf}
use netsee.Client.ResolvConf.Parsed.{Parses, parse_resolv_conf-Parses}
use netsee.Prelude.Text.{Bytes, utf8}

abbrev file : Bytes
file = utf8 "# local\n  nameserver 192.0.2.53\ndomain example.com\nsearch a b\nnameserver\n"

parse_resolv_conf-Parses_example : Parses (parse_resolv_conf file)
parse_resolv_conf-Parses_example = parse_resolv_conf-Parses file
