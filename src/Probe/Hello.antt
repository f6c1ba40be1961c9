-- ===== src/Probe/Hello.antt =====
-- internal/probe/ja3.go, first half: the ClientHello parser and the accumulating `helloParser`.
-- `body[pos:]` is read by positions, as in the source; a read out of range is the outcome `panic`.
pub mod Extensions
pub mod Safe
pub mod Stream
pub mod Tests
use netsee.Prelude.{
  List, [], if◌then◌else◌, leb, length, ltb, nat_eq, none, not, some, suc, zero, ℕ, ◌%◌, ◌*◌, ◌++◌,
  ◌+◌, ◌/◌, ◌==◌, ◌||◌, ◌∷◌,
}
use netsee.Prelude.Dict.{insert, lookup}
use netsee.Prelude.Text.{Bytes}
use netsee.Probe.Hello.Extensions.{
  parse_alpn, parse_point_formats, parse_sni, parse_uint16_list1, parse_uint16_list2, u16_loop,
}
use netsee.Probe.Outcome.{
  Outcome, byte_at, done, invalid, invalid_if, need_more, need_more_if, panic, slice, stuck, u16_at,
  ◌>>=◌, ◌>>◌,
}

abbrev tls_content_handshake : ℕ
tls_content_handshake = 22

abbrev tls_handshake_client_hello : ℕ
tls_handshake_client_hello = 1

-- The extension types that the parser looks into.
abbrev pub ext_sni : ℕ
ext_sni = 0x0000

abbrev ext_supported_groups : ℕ
ext_supported_groups = 0x000a

abbrev ext_ec_point_formats : ℕ
ext_ec_point_formats = 0x000b

abbrev ext_sig_algs : ℕ
ext_sig_algs = 0x000d

abbrev pub ext_alpn : ℕ
ext_alpn = 0x0010

abbrev ext_supported_version : ℕ
ext_supported_version = 0x002b

abbrev pub max_hello_bytes : ℕ
max_hello_bytes = 64 * 1024

pub record ClientHello : Type 0 where
  pub legacy_version : ℕ
  pub ciphers : List ℕ
  pub extensions : List ℕ
  pub ext_data : List (ℕ × Bytes)
  pub sni : Bytes
  pub alpn : List Bytes
  pub sig_algs : List ℕ
  pub supp_versions : List ℕ
  pub groups : List ℕ
  pub point_formats : Bytes

-- `pos` behind the session id.
skip_session_id : Bytes → ℕ → Outcome ℕ
skip_session_id body off = do
  sid_len ← byte_at body off
  invalid_if (ltb (length body) (off + 1 + sid_len))
  done (off + 1 + sid_len)

-- The cipher suites, and `pos` behind them.
read_ciphers : Bytes → ℕ → Outcome (List ℕ × ℕ)
read_ciphers body off = do
  invalid_if (ltb (length body) (off + 2))
  cipher_len ← u16_at body off
  invalid_if
      (ltb cipher_len 2 || not (cipher_len % 2 == 0) || ltb (length body) (off + 2 + cipher_len))
  ciphers ← u16_loop ((cipher_len + 1) / 2) body (off + 2) []
  done (ciphers, off + 2 + cipher_len)

-- `pos` behind the compression methods.
skip_compression : Bytes → ℕ → Outcome ℕ
skip_compression body off = do
  invalid_if (leb (length body) off)
  comp_len ← byte_at body off
  invalid_if (ltb comp_len 1 || ltb (length body) (off + 1 + comp_len))
  done (off + 1 + comp_len)

abbrev pub ExtensionTable : Type 0
ExtensionTable = List ℕ × List (ℕ × Bytes)

-- `for pos < extEnd`
extension_loop : ℕ → Bytes → ℕ → ℕ → List ℕ → List (ℕ × Bytes) → Outcome ExtensionTable
extension_loop zero body end off types found = stuck
extension_loop (suc fuel) body end off types found =
    let entry = do
      typ ← u16_at body off
      l ← u16_at body (off + 2)
      let next = do
        payload ← slice body (off + 4) (off + 4 + l)
        extension_loop fuel body end (off + 4 + l) (types ++ (typ ∷ [])) (insert typ payload found)
      if ltb end (off + 4 + l) then invalid else next
    in if ltb off end then (if ltb end (off + 4) then invalid else entry) else done (types, found)

read_extensions : Bytes → ℕ → Outcome ExtensionTable
read_extensions body off = do
  invalid_if (ltb (length body) (off + 2))
  ext_len ← u16_at body off
  invalid_if (ltb (length body) (off + 2 + ext_len))
  extension_loop (suc ext_len) body (off + 2 + ext_len) (off + 2) [] []

-- `ch.extData[typ]`: nil for a missing type.
abbrev ext_at : ℕ → List (ℕ × Bytes) → Bytes
ext_at typ found = elim (lookup typ found) [ none ↦ [] | some d ↦ d ]

-- The fields that are derived from the extensions' payloads.
derive_fields : ℕ → List ℕ → ExtensionTable → Outcome ClientHello
derive_fields version ciphers (types, found) = do
  sni ← parse_sni (ext_at ext_sni found)
  alpn ← parse_alpn (ext_at ext_alpn found)
  sig_algs ← parse_uint16_list2 (ext_at ext_sig_algs found)
  supp_versions ← parse_uint16_list1 (ext_at ext_supported_version found)
  groups ← parse_uint16_list2 (ext_at ext_supported_groups found)
  point_formats ← parse_point_formats (ext_at ext_ec_point_formats found)
  done (record {
    legacy_version = version;
    ciphers = ciphers;
    extensions = types;
    ext_data = found;
    sni = sni;
    alpn = alpn;
    sig_algs = sig_algs;
    supp_versions = supp_versions;
    groups = groups;
    point_formats = point_formats;
  })

pub parse_client_hello_body : Bytes → Outcome ClientHello
parse_client_hello_body body = do
  invalid_if (ltb (length body) (2 + 32 + 1 + 2 + 1 + 2))
  version ← u16_at body 0
  ciphers_at ← skip_session_id body (2 + 32)
  (ciphers, compression_at) ← read_ciphers body ciphers_at
  extensions_at ← skip_compression body compression_at
  extensions ← read_extensions body extensions_at
  derive_fields version ciphers extensions

-- Behind the record header: `hb` is the record's content.
pub parse_handshake : Bytes → Outcome ClientHello
parse_handshake hb = do
  typ ← byte_at hb 0
  invalid_if (not (typ == tls_handshake_client_hello))
  b1 ← byte_at hb 1
  b2 ← byte_at hb 2
  b3 ← byte_at hb 3
  let hs_len = b1 * 65536 + b2 * 256 + b3
  need_more_if (ltb (length hb) (4 + hs_len))
  body ← slice hb 4 (4 + hs_len)
  parse_client_hello_body body

pub parse_client_hello : Bytes → Outcome ClientHello
parse_client_hello b = do
  need_more_if (ltb (length b) 5)
  typ ← byte_at b 0
  invalid_if (not (typ == tls_content_handshake))
  rec_len ← u16_at b 3
  invalid_if (ltb rec_len 4)
  need_more_if (ltb (length b) (5 + rec_len))
  hb ← slice b 5 (5 + rec_len)
  parse_handshake hb

pub record HelloParser : Type 0 where
  pub buf : Bytes

-- What `Feed` returns: (nil, false, nil), (ch, true, nil) or (nil, true, err). `crashed` is a run
-- of the parser with no result.
pub data Fed : Type 0 where
  more : Fed
  hello : ClientHello → Fed
  not_hello : Fed
  crashed : Fed

-- The switch of `Feed` on the parser's state; the buffer is the one that was parsed.
finish_feed : Bytes → Outcome ClientHello → HelloParser × Fed
finish_feed buf (done ch) = (record { buf = [] }, hello ch)
finish_feed buf invalid = (record { buf = [] }, not_hello)
finish_feed buf need_more = (record { buf = buf }, more)
finish_feed buf panic = (record { buf = buf }, crashed)
finish_feed buf stuck = (record { buf = buf }, crashed)

pub feed : HelloParser → Bytes → HelloParser × Fed
feed p b =
    if ltb max_hello_bytes (length p.buf + length b)
    then (record { buf = [] }, not_hello)
    else finish_feed (p.buf ++ b) (parse_client_hello (p.buf ++ b))
