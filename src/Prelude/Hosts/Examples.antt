-- ===== src/Prelude/Hosts/Examples.antt =====
-- Addresses that are split.
use mathlib.Core.Path.{◌≡◌, refl}
use mathlib.Core.Option.{none, some}
use netsee.Prelude.Hosts.{
  bracketed, has_byte, cut_first, cut_last, net_split_host_port, unbracketed,
}
use netsee.Prelude.Text.{utf8}

split_six :
    net_split_host_port (utf8 "[2001:db8::1]:40000") ≡ some (utf8 "2001:db8::1", utf8 "40000")
unfolding net_split_host_port cut_last cut_first bracketed has_byte utf8
split_six = refl

-- An address with colons wants brackets.
split_bare_six : net_split_host_port (utf8 "2001:db8::1") ≡ none
unfolding net_split_host_port cut_last unbracketed has_byte utf8
split_bare_six = refl
