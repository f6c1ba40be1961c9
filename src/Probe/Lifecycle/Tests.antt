-- ===== src/Probe/Lifecycle/Tests.antt =====
-- A start whose fourth listener is refused, and one that is shut down.
use netsee.Prelude.{Bool, [], false, none, refl, true, ◌∷◌, ◌≡◌}
use netsee.Prelude.Text.{utf8}
use netsee.Probe.Lifecycle.{
  Listener, Sockets, bind_all, close_all, extra_listeners, extra_ln, http_limits, http_ln,
  listen_at, nat_ln, refused, running, shutdown, start, tls_ln, udp_at, udp_ln,
}
use netsee.Probe.Server.Samples.{config_of}

abbrev not_nat : Listener → Bool
not_nat http_ln = true
not_nat tls_ln = true
not_nat udp_ln = true
not_nat nat_ln = false
not_nat (extra_ln p) = true

abbrev all_open : Sockets
all_open = record {
  opened = http_ln ∷ tls_ln ∷ udp_ln ∷ nat_ln ∷ extra_ln 9000 ∷ [];
  closed = [];
  done = false;
}

start-all_open : start (λ opened ln. true) (config_of []) ≡ running all_open
unfolding start bind_all extra_listeners
start-all_open = refl

start-not_nat :
    start (λ opened. not_nat) (config_of [])
    ≡ refused nat_ln (record { opened = []; closed = http_ln ∷ tls_ln ∷ udp_ln ∷ []; done = false })
unfolding start bind_all close_all extra_listeners
start-not_nat = refl

shutdown-all_open : (shutdown all_open).closed ≡ all_open.opened
unfolding shutdown close_all
shutdown-all_open = refl

-- A second IP that does not parse: the socket for NAT listens on all interfaces.
listen_at_all : listen_at (λ text. none) (config_of (utf8 "second")) nat_ln ≡ udp_at none 8445
unfolding listen_at utf8
listen_at_all = refl

http_limits_header : (http_limits (config_of [])).max_header_bytes ≡ 65_536
unfolding http_limits
http_limits_header = refl
