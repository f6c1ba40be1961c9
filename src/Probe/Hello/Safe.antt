-- ===== src/Probe/Hello/Safe.antt =====
-- The parser of internal/probe/ja3.go: its reads and the end of its loops.
use netsee.Prelude.{
  List, [], ap, arith, drop, leb, length, length-drop, length-take, ltb, nat_eq, not, suc, sym,
  take, zero, ℕ, ◌%◌, ◌*◌, ◌+◌, ◌-◌, ◌/◌, ◌<◌, ◌==◌, ◌||◌, ◌∙◌, ◌≡◌, ◌≤◌,
}
use netsee.Prelude.Text.{Bytes}
use netsee.Probe.Hello.{
  ExtensionTable, derive_fields, extension_loop, parse_client_hello, parse_client_hello_body,
  parse_handshake, read_ciphers, read_extensions, skip_compression, skip_session_id,
}
use netsee.Probe.Hello.Extensions.{
  parse_alpn, parse_point_formats, parse_sni, parse_uint16_list1, parse_uint16_list2, u16_loop,
}
use netsee.Probe.Hello.Extensions.Safe.{
  parse_alpn-IsSafe, parse_point_formats-IsSafe, parse_sni-IsSafe, parse_uint16_list1-IsSafe,
  parse_uint16_list2-IsSafe, u16_loop-IsSafe,
}
use netsee.Probe.Outcome.{
  IsSafe, bind-IsSafe, byte_at, byte_at-IsSafe, done, guard-IsSafe, if-IsSafe, slice, slice-IsSafe,
  slice-done, u16_at, u16_at-IsSafe, wait-IsSafe,
}

extension_loop-IsSafe :
    (fuel : ℕ) (body : Bytes) (end off : ℕ) (types : List ℕ) (found : List (ℕ × Bytes))
    → end ≤ length body
    → off ≤ end
    → end < fuel + off
    → IsSafe (extension_loop fuel body end off types found)
unfolding extension_loop
extension_loop-IsSafe zero body end off types found h le f = absurd (omega arith)
extension_loop-IsSafe (suc fuel) body end off types found h le f =
    if-IsSafe (ltb off end) _ _
      (λ inside.
        if-IsSafe (ltb end (off + 4)) _ _ (λ _. tt)
          (λ fits. bind-IsSafe (u16_at body off) _ (u16_at-IsSafe body off (ground arith)) (λ typ _.
            bind-IsSafe (u16_at body (off + 2)) _ (u16_at-IsSafe body (off + 2) (ground arith))
              (λ l _.
                if-IsSafe (ltb end (off + 4 + l)) _ _ (λ _. tt)
                  (λ within.
                    bind-IsSafe (slice body (off + 4) (off + 4 + l)) _
                      (slice-IsSafe body (off + 4) (off + 4 + l) (omega arith) (ground arith))
                      (λ payload _.
                        extension_loop-IsSafe fuel body end (off + 4 + l) _ _ h (ground arith)
                          (omega arith)))))))
      (λ _. tt)

derive_fields-IsSafe :
    (version : ℕ) (ciphers : List ℕ) (e : ExtensionTable) → IsSafe (derive_fields version ciphers e)
unfolding derive_fields
derive_fields-IsSafe version ciphers (types, found) =
    bind-IsSafe (parse_sni _) _ (parse_sni-IsSafe _) (λ _ _.
      bind-IsSafe (parse_alpn _) _ (parse_alpn-IsSafe _) (λ _ _.
        bind-IsSafe (parse_uint16_list2 _) _ (parse_uint16_list2-IsSafe _) (λ _ _.
          bind-IsSafe (parse_uint16_list1 _) _ (parse_uint16_list1-IsSafe _) (λ _ _.
            bind-IsSafe (parse_uint16_list2 _) _ (parse_uint16_list2-IsSafe _) (λ _ _.
              bind-IsSafe (parse_point_formats _) _ (parse_point_formats-IsSafe _) (λ _ _. tt))))))

skip_session_id-IsSafe :
    (body : Bytes) (off : ℕ) → off < length body → IsSafe (skip_session_id body off)
unfolding skip_session_id
skip_session_id-IsSafe body off h =
    bind-IsSafe (byte_at body off) _ (byte_at-IsSafe body off h)
      (λ n _. guard-IsSafe (ltb (length body) (off + 1 + n)) _ (λ _. tt))

read_ciphers-IsSafe : (body : Bytes) (off : ℕ) → IsSafe (read_ciphers body off)
unfolding read_ciphers
read_ciphers-IsSafe body off = guard-IsSafe (ltb (length body) (off + 2)) _ (λ room.
    bind-IsSafe (u16_at body off) _ (u16_at-IsSafe body off (ground arith)) (λ n _.
      guard-IsSafe (ltb n 2 || not (n % 2 == 0) || ltb (length body) (off + 2 + n)) _ (λ even.
        bind-IsSafe (u16_loop ((n + 1) / 2) body (off + 2) []) _
          (u16_loop-IsSafe ((n + 1) / 2) body (off + 2) [] (ground arith)) (λ _ _. tt))))

skip_compression-IsSafe : (body : Bytes) (off : ℕ) → IsSafe (skip_compression body off)
unfolding skip_compression
skip_compression-IsSafe body off = guard-IsSafe (leb (length body) off) _ (λ room.
    bind-IsSafe (byte_at body off) _ (byte_at-IsSafe body off (ground arith)) (λ n _.
      guard-IsSafe (ltb n 1 || ltb (length body) (off + 1 + n)) (done (off + 1 + n)) (λ _. tt)))

read_extensions-IsSafe : (body : Bytes) (off : ℕ) → IsSafe (read_extensions body off)
unfolding read_extensions
read_extensions-IsSafe body off = guard-IsSafe (ltb (length body) (off + 2)) _ (λ room.
    bind-IsSafe (u16_at body off) _ (u16_at-IsSafe body off (ground arith)) (λ n _.
      guard-IsSafe (ltb (length body) (off + 2 + n)) _ (λ fits.
        extension_loop-IsSafe (suc n) body (off + 2 + n) (off + 2) [] [] (ground arith)
          (omega arith) (omega arith))))

parse_client_hello_body-IsSafe : (body : Bytes) → IsSafe (parse_client_hello_body body)
unfolding parse_client_hello_body
parse_client_hello_body-IsSafe body =
    guard-IsSafe (ltb (length body) (2 + 32 + 1 + 2 + 1 + 2)) _ (λ long.
      bind-IsSafe (u16_at body 0) _ (u16_at-IsSafe body 0 (ground arith)) (λ version _.
        bind-IsSafe (skip_session_id body (2 + 32)) _
          (skip_session_id-IsSafe body (2 + 32) (ground arith))
          (λ ciphers_at _.
            bind-IsSafe (read_ciphers body ciphers_at) _ (read_ciphers-IsSafe body ciphers_at)
              (λ read _.
                bind-IsSafe (skip_compression body read.1) _ (skip_compression-IsSafe body read.1)
                  (λ extensions_at _.
                    bind-IsSafe (read_extensions body extensions_at) _
                      (read_extensions-IsSafe body extensions_at)
                      (λ e _. derive_fields-IsSafe version read.0 e))))))

-- The record's content holds four bytes at least: `recLen < 4` is refused before.
parse_handshake-IsSafe : (hb : Bytes) → 4 ≤ length hb → IsSafe (parse_handshake hb)
unfolding parse_handshake
parse_handshake-IsSafe hb h =
    bind-IsSafe (byte_at hb 0) _ (byte_at-IsSafe hb 0 (omega arith)) (λ typ _.
      guard-IsSafe (not (typ == 1)) _ (λ _.
        bind-IsSafe (byte_at hb 1) _ (byte_at-IsSafe hb 1 (omega arith)) (λ b1 _.
          bind-IsSafe (byte_at hb 2) _ (byte_at-IsSafe hb 2 (omega arith)) (λ b2 _.
            bind-IsSafe (byte_at hb 3) _ (byte_at-IsSafe hb 3 (omega arith)) (λ b3 _.
              let size = b1 * 65536 + b2 * 256 + b3 in
              wait-IsSafe (ltb (length hb) (4 + size)) _ (λ whole.
                bind-IsSafe (slice hb 4 (4 + size)) _
                  (slice-IsSafe hb 4 (4 + size) (omega arith) (ground arith))
                  (λ body _. parse_client_hello_body-IsSafe body)))))))

length-slice :
    (b : Bytes) (lo hi : ℕ) {s : Bytes}
    → lo ≤ hi
    → hi ≤ length b
    → slice b lo hi ≡ done s
    → length s ≡ hi - lo
length-slice b lo hi {s} p q e =
    let cut = slice-done b lo hi p q in
    let size = length-take (hi - lo) (drop lo b) (omega (arith, length-drop lo b)) in
    let same : take (hi - lo) (drop lo b) ≡ s = cc (cut, e) in ap length (sym same) ∙ size

-- `parseClientHello` never reads out of range and its loops end, whatever the bytes are.
pub parse_client_hello-IsSafe : (b : Bytes) → IsSafe (parse_client_hello b)
unfolding parse_client_hello
parse_client_hello-IsSafe b = wait-IsSafe (ltb (length b) 5) _ (λ long.
    bind-IsSafe (byte_at b 0) _ (byte_at-IsSafe b 0 (ground arith)) (λ typ _.
      guard-IsSafe (not (typ == 22)) _ (λ _.
        bind-IsSafe (u16_at b 3) _ (u16_at-IsSafe b 3 (ground arith)) (λ n _.
          guard-IsSafe (ltb n 4) _ (λ big. wait-IsSafe (ltb (length b) (5 + n)) _ (λ whole.
            bind-IsSafe (slice b 5 (5 + n)) _
              (slice-IsSafe b 5 (5 + n) (omega arith) (ground arith))
              (λ hb e.
                parse_handshake-IsSafe hb
                  (ground (arith, length-slice b 5 (5 + n) (omega arith) (ground arith) e)))))))))
