-- ===== src/Probe/Tls.antt =====
-- internal/probe/tls.go: one connection at the TLS port.
pub mod Sessions
pub mod Fragments
use mathlib.Core.Option
mod Tests
use netsee.Prelude.{
  Bool, List, Option, [], if◌then◌else◌, ltb, none, some, suc, take, ℕ, ◌&&◌, ◌==◌, ◌∷◌,
}
use netsee.Prelude.Text.{Bytes, is_empty}
use netsee.Probe.Fingerprint.{Digests, ja3, ja4}
use netsee.Probe.Hello.{ClientHello, HelloParser, crashed, feed, hello, more, not_hello}
use netsee.Probe.Server.{Env, Peer, Server, blank_obs, record_obs, with_peer}
use netsee.Proto.SessionId.{valid_session_id}
use netsee.Proto.Types.{obs_tls}

-- `strings.IndexByte(s, '.')`
pub index_dot : Bytes → Option ℕ
index_dot [] = none
index_dot (c ∷ s) = if c == b'.' then some 0 else Option.map suc (index_dot s)

-- The session that `recordTLS` reads from the SNI; empty if there is none.
pub session_of_sni : Bytes → Bytes
session_of_sni sni = elim (index_dot sni) [
  | none ↦ []
  | some i ↦ if ltb 0 i && valid_session_id (take i sni) then take i sni else []
]

pub record_tls : Digests → Env → Peer → ClientHello → Server → Server
record_tls d e peer ch s =
    let session = session_of_sni ch.sni in
    let obs = with_peer peer (record (blank_obs e obs_tls session s.info.tls_port) {
      tls = some (record { ja3 = ja3 d ch; ja4 = ja4 d ch; sni = ch.sni });
    }) in
    if is_empty session then s else record_obs e session obs s

-- One `conn.Read`: the bytes that it gave, and whether it gave an error too.
pub record TlsRead : Type 0 where
  pub bytes : Bytes
  pub failed : Bool

-- The loop of `handleTLSConn`: the hello that is recorded, if any. The list ends where the
-- connection gives nothing more.
pub sniff : HelloParser → List TlsRead → Option ClientHello
sniff p [] = none
sniff p (r ∷ reads) =
    let (p', answer) = feed p r.bytes in
    let again = if r.failed then none else sniff p reads in
    let on = if r.failed then none else sniff p' reads in
    if is_empty r.bytes
    then again
    else elim answer [ more ↦ on | hello ch ↦ some ch | not_hello ↦ none | crashed ↦ none ]

-- `if perr == nil { s.recordTLS(conn, ch) }`
pub record_found : Digests → Env → Peer → Server → Option ClientHello → Server
record_found d e peer s none = s
record_found d e peer s (some ch) = record_tls d e peer ch s

pub handle_tls_conn : Digests → Env → Peer → List TlsRead → Server → Server
handle_tls_conn d e peer reads s = record_found d e peer s (sniff (record { buf = [] }) reads)
