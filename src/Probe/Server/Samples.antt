-- ===== src/Probe/Server/Samples.antt =====
-- A small configuration and a server that runs under it, for the tests.
use netsee.Prelude.{
  Option, [], drop, if◌then◌else◌, leb, length, none, not, refl, some, suc, take, true, zero, ℕ,
  ◌∷◌, ◌≡◌,
}
use netsee.Prelude.Int.{pos}
use netsee.Prelude.Text.{Bytes, is_empty, utf8}
use netsee.Probe.Fingerprint.{Digests}
use netsee.Probe.Server.{Config, Env, Peer, Server, apply_defaults}
use netsee.Probe.Server.Registry.{HoldsValid}
use netsee.Proto.SessionId.{valid_session_id}

abbrev pub config_of : Bytes → Config
config_of second_ip = record {
  bind = [];
  http_port = 8080;
  tls_port = 8443;
  udp_port = 8444;
  nat_port = 8445;
  extra_ports = 9000 ∷ [];
  second_ip = second_ip;
  ttl = pos 0;
  max_sessions = pos 2;
  max_udp = pos 0;
  max_udp_pmtu = pos 0;
  read_timeout = pos 0;
}

pub config_of-max_sessions : (apply_defaults (config_of [])).max_sessions ≡ pos 2
unfolding apply_defaults
config_of-max_sessions = refl

abbrev pub server_of : Bytes → Server
server_of second_ip = record {
  cfg = record (config_of second_ip) { max_udp = pos 2048; max_udp_pmtu = pos 9000 };
  store = record { sessions = []; ttl = pos 300; max = pos 2 };
  info = record {
    protocol_version = utf8 "1";
    http_port = 8080;
    tls_port = 8443;
    udp_port = 8444;
    nat_port = 8445;
    extra_ports = 9000 ∷ [];
    second_ip = not (is_empty second_ip);
    second_ip_addr = second_ip;
    max_udp_pmtu = pos 9000;
  };
}

pub server_of-HoldsValid : (second_ip : Bytes) → HoldsValid (server_of second_ip)
server_of-HoldsValid second_ip = record {
  registry = record { distinct = tt; entries = tt; bounded = refl };
}

abbrev pub env_at : ℕ → Env
env_at t = record { fresh_id = utf8 "fresh"; time = t; now = t }

abbrev pub peer : Peer
peer = record { address = some (utf8 "192.0.2.1", 40000); tcp_info = none }

-- A session's identifier.
abbrev pub session_id : Bytes
session_id = utf8 "00112233445566778899aabbccddeeff"

pub session_id-IsValid : valid_session_id session_id ≡ true
unfolding valid_session_id utf8
session_id-IsValid = refl

-- A decoder in place of JSON: 32 bytes of session, then the kind.
abbrev pub decode : Bytes → Option (Bytes × Bytes)
decode payload = if leb 32 (length payload) then some (take 32 payload, drop 32 payload) else none

-- Digests of the right widths.
abbrev pub digests : Digests
digests = record { md5 = λ s. zeros 16; sha256 = λ s. zeros 32 }
  where
    zeros : ℕ → Bytes
    zeros zero = []
    zeros (suc n) = 0 ∷ zeros n
