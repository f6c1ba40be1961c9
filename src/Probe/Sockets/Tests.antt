-- ===== src/Probe/Sockets/Tests.antt =====
-- A datagram with its TTL, and the options of a connection.
use netsee.Prelude.{[], false, none, refl, some, true, ◌∷◌, ◌≡◌}
use netsee.Prelude.Text.{utf8}
use netsee.Probe.Sockets.{
  ControlMessage, has_option, read_udp, read_udp_other, tcp_info_from_conn, tcp_info_other,
  ttl_from,
}

abbrev ttl_message : ControlMessage
ttl_message = record { level = 0; type_of = 2; payload = 64 ∷ 0 ∷ 0 ∷ 0 ∷ [] }

abbrev other_message : ControlMessage
other_message = record { level = 1; type_of = 2; payload = 9 ∷ [] }

read_udp_ttl :
    read_udp
      (λ oob. some (ttl_message ∷ other_message ∷ []))
      (record { n = 5; oob = 1 ∷ []; src = utf8 "192.0.2.1"; error = none })
    ≡ (5, utf8 "192.0.2.1", 64, none)
unfolding read_udp ttl_from utf8
read_udp_ttl = refl

-- Without control data there is no TTL.
read_udp_bare :
    read_udp (λ oob. some []) (record { n = 5; oob = []; src = utf8 "192.0.2.1"; error = none })
    ≡ (5, utf8 "192.0.2.1", 0, none)
unfolding read_udp ttl_from utf8
read_udp_bare = refl

tcp_info_options :
    tcp_info_from_conn (some (record { options = 7; snd_mss = 1460; rtt = 1200 }))
    ≡ some
        (record { mss = 1460; wscale = true; sack = true; ts = true; ecn = false; rtt_us = 1200 })
unfolding tcp_info_from_conn has_option
tcp_info_options = refl

read_udp_elsewhere : read_udp_other 5 (utf8 "src") none ≡ (5, utf8 "src", 0, none)
unfolding read_udp_other
read_udp_elsewhere = refl

tcp_info_elsewhere : tcp_info_other ≡ none
unfolding tcp_info_other
tcp_info_elsewhere = refl
