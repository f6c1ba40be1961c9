-- ===== src/Probe/Hello/Tests.antt =====
-- Runs of the parser.
use netsee.Prelude.{[], arith, length, refl, ◌∷◌, ◌≡◌}
use netsee.Prelude.Dict.{insert, lookup}
use netsee.Prelude.Text.{Bytes}
use netsee.Probe.Hello.{
  ClientHello, derive_fields, extension_loop, more, parse_client_hello, parse_client_hello_body,
  parse_handshake, read_ciphers, read_extensions, skip_compression, skip_session_id,
}
use netsee.Probe.Hello.Extensions.{
  alpn_loop, parse_alpn, parse_point_formats, parse_sni, parse_uint16_list1, parse_uint16_list2,
  sni_loop, u16_loop,
}
use netsee.Probe.Hello.Safe.{parse_client_hello-IsSafe}
use netsee.Probe.Hello.Stream.{HasRecord, concat, feed_all, split_handshake_waits}
use netsee.Probe.Outcome.{IsSafe, byte_at, done, need_more, slice, u16_at}

-- A record with a ClientHello of one cipher suite and the extensions sni "a.n" and alpn "h2".
abbrev hello_body : Bytes
hello_body =
    3 ∷ 3 ∷ 0 ∷ 0 ∷ 0 ∷ 0 ∷ 0 ∷ 0 ∷ 0 ∷ 0 ∷ 0 ∷ 0 ∷ 0 ∷ 0 ∷ 0 ∷ 0 ∷ 0 ∷ 0 ∷ 0 ∷ 0 ∷ 0 ∷ 0 ∷ 0 ∷ 0
    ∷ 0 ∷ 0 ∷ 0 ∷ 0 ∷ 0 ∷ 0 ∷ 0 ∷ 0 ∷ 0 ∷ 0 ∷ 0 ∷ 0 ∷ 2 ∷ 0x13 ∷ 0x01 ∷ 1 ∷ 0 ∷ 0 ∷ 21 ∷ 0 ∷ 0 ∷ 0
    ∷ 8 ∷ 0 ∷ 6 ∷ 0 ∷ 0 ∷ 3 ∷ b'a' ∷ b'.' ∷ b'n' ∷ 0 ∷ 16 ∷ 0 ∷ 5 ∷ 0 ∷ 3 ∷ 2 ∷ b'h' ∷ b'2' ∷ []

abbrev pub hello_record : Bytes
hello_record = 22 ∷ 3 ∷ 1 ∷ 0 ∷ 68 ∷ 1 ∷ 0 ∷ 0 ∷ 64 ∷ hello_body

hello_body_length : length hello_record ≡ 73
hello_body_length = refl

abbrev pub hello_of : ClientHello
hello_of = record {
  legacy_version = 0x0303;
  ciphers = 0x1301 ∷ [];
  extensions = 0 ∷ 16 ∷ [];
  ext_data =
      (0, 0 ∷ 6 ∷ 0 ∷ 0 ∷ 3 ∷ b'a' ∷ b'.' ∷ b'n' ∷ []) ∷ (16, 0 ∷ 3 ∷ 2 ∷ b'h' ∷ b'2' ∷ []) ∷ [];
  sni = b'a' ∷ b'.' ∷ b'n' ∷ [];
  alpn = (b'h' ∷ b'2' ∷ []) ∷ [];
  sig_algs = [];
  supp_versions = [];
  groups = [];
  point_formats = [];
}

parse_hello : parse_client_hello hello_record ≡ done hello_of
unfolding parse_client_hello parse_handshake parse_client_hello_body skip_session_id read_ciphers
    skip_compression read_extensions extension_loop derive_fields parse_sni sni_loop parse_alpn
    alpn_loop parse_uint16_list2 parse_uint16_list1 parse_point_formats u16_loop byte_at u16_at
    slice lookup insert
parse_hello = refl

parse_client_hello-IsSafe_example : IsSafe (parse_client_hello hello_record)
parse_client_hello-IsSafe_example = parse_client_hello-IsSafe hello_record

hello_record-HasRecord : HasRecord hello_record
unfolding u16_at byte_at
hello_record-HasRecord = record {
  size = 68;
  header = omega arith;
  size_is = refl;
  content = omega arith;
}

-- A handshake of 64 bytes whose first record holds 6 of its bytes, behind its header.
abbrev split_record : Bytes
split_record = 22 ∷ 3 ∷ 1 ∷ 0 ∷ 10 ∷ 1 ∷ 0 ∷ 0 ∷ 64 ∷ 3 ∷ 3 ∷ 0 ∷ 0 ∷ 0 ∷ 0 ∷ []

split_record-HasRecord : HasRecord split_record
unfolding u16_at byte_at
split_record-HasRecord = record {
  size = 10;
  header = omega arith;
  size_is = refl;
  content = omega arith;
}

split_record_waits : parse_client_hello split_record ≡ need_more
unfolding parse_client_hello parse_handshake byte_at u16_at slice
split_record_waits = refl

split_handshake_waits_example :
    feed_all (record { buf = [] }) (split_record ∷ hello_record ∷ []) ≡ more
unfolding concat
split_handshake_waits_example =
    split_handshake_waits split_record (hello_record ∷ []) split_record-HasRecord split_record_waits
      (omega arith)
