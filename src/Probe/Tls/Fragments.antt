-- ===== src/Probe/Tls/Fragments.antt =====
-- What fragments of a hello come to, and what is recorded of them.
use netsee.Prelude.{
  All, List, Option, [], ap, arith, false, length, none, refl, some, ◌∙◌, ◌∷◌, ◌≡◌, ◌≤◌,
}
use netsee.Prelude.Text.{Bytes, is_empty}
use netsee.Probe.Fingerprint.{Digests, ja3, ja4}
use netsee.Probe.Hello.{
  ClientHello, Fed, HelloParser, crashed, feed, hello, max_hello_bytes, more, not_hello,
  parse_client_hello,
}
use netsee.Probe.Hello.Stream.{
  concat, fed_of, feed_all, feed_all-cons, feed_all-nil, feed_all_fragments,
}
use netsee.Probe.Server.{Env, Peer, Server, blank_obs, with_peer}
use netsee.Probe.Server.Registry.{
  Follows, Follows-refl, record_obs-Follows_unless, with_peer-session,
}
use netsee.Probe.Tls.{TlsRead, handle_tls_conn, record_found, record_tls, session_of_sni, sniff}
use netsee.Proto.Types.{obs_tls}

-- Reads that gave bytes and no error.
abbrev IsFlowing : List TlsRead → Type 0
IsFlowing = All (λ r. (is_empty r.bytes ≡ false) × (r.failed ≡ false))

unfoldable pub bytes_of : List TlsRead → List Bytes
bytes_of [] = []
bytes_of (r ∷ reads) = r.bytes ∷ bytes_of reads

-- The hello of an answer, if it is one.
abbrev pub hello_in : Fed → Option ClientHello
hello_in (hello ch) = some ch
hello_in more = none
hello_in not_hello = none
hello_in crashed = none

sniff-feed_all :
    (p : HelloParser) (reads : List TlsRead)
    → IsFlowing reads
    → sniff p reads ≡ hello_in (feed_all p (bytes_of reads))
unfolding sniff bytes_of
sniff-feed_all p [] h = rw feed_all-nil
sniff-feed_all p (r ∷ reads) h =
    ground
      (arith, feed_all-cons p r.bytes (bytes_of reads), sniff-feed_all (feed p r.bytes).0 reads h.1)

-- If every read gives bytes and no error, and all of them are within the cap, the connection is
-- recorded by what the parser makes of the whole, however the bytes are cut into reads.
pub handle_tls_conn_fragments :
    (d : Digests) (e : Env) (peer : Peer) (reads : List TlsRead) (s : Server)
    → IsFlowing reads
    → length (concat (bytes_of reads)) ≤ max_hello_bytes
    → handle_tls_conn d e peer reads s
      ≡ record_found d e peer s (hello_in (fed_of (parse_client_hello (concat (bytes_of reads)))))
unfolding handle_tls_conn
handle_tls_conn_fragments d e peer reads s h fits = ap (record_found d e peer s) (
    sniff-feed_all (record { buf = [] }) reads h
    ∙ ap hello_in (feed_all_fragments (bytes_of reads) fits))

pub handle_tls_conn-Follows :
    (d : Digests) (e : Env) (peer : Peer) (reads : List TlsRead) (s : Server)
    → Follows s (handle_tls_conn d e peer reads s)
unfolding handle_tls_conn record_found record_tls blank_obs
handle_tls_conn-Follows d e peer reads s = followed (sniff (record { buf = [] }) reads)
  where
    followed : (found : Option ClientHello) → Follows s (record_found d e peer s found)
    followed none = Follows-refl s
    followed (some ch) =
        let session = session_of_sni ch.sni in
        let seen = record (blank_obs e obs_tls session s.info.tls_port) {
          tls = some (record { ja3 = ja3 d ch; ja4 = ja4 d ch; sni = ch.sni });
        } in
        record_obs-Follows_unless (is_empty session) e session (with_peer peer seen) s
          (with_peer-session peer seen session refl)
