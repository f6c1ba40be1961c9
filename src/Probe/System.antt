-- ===== src/Probe/System.antt =====
-- internal/probe: the probe as a whole. The goroutines that `Start` launches share the registry
-- alone, and its mutex makes each of their accesses one step.
pub mod Bounded
pub mod Filed
mod Tests
use netsee.Prelude.{List, ℕ}
use netsee.Prelude.Text.{Bytes}
use netsee.Probe.Fingerprint.{Digests}
use netsee.Probe.Handlers.{FirstRead, handle_extra_conn}
use netsee.Probe.Mux.{HttpRequest, serve_request}
use netsee.Probe.Server.{Env, Peer, Server}
use netsee.Probe.Tls.{TlsRead, handle_tls_conn}
use netsee.Probe.Udp.{Decode, Socket, UdpAddr, handle_udp_arrival}
use netsee.Proto.Store.{gc}

-- One tick of `gcLoop`.
unfoldable pub gc_tick : ℕ → Server → Server
gc_tick now s = record s { store = gc now s.store }

module _ (decode : Decode) (d : Digests) where
  -- What the goroutines do to the server, one arrival at a time.
  pub data Serves : Server → Server → Type 0 where
    http_request :
        (e : Env) (peer : Peer) (q : HttpRequest) (s : Server)
        → Serves s (serve_request e peer q s).0
    extra_conn :
        (e : Env) (peer : Peer) (r : FirstRead) (dst_port : ℕ) (s : Server)
        → Serves s (handle_extra_conn decode e peer r dst_port s).0
    udp_arrival :
        (e : Env) (ln : Socket) (payload : Bytes) (src : UdpAddr) (ttl : ℕ) (s : Server)
        → Serves s (handle_udp_arrival decode e ln payload src ttl s).0
    tls_conn :
        (e : Env) (peer : Peer) (reads : List TlsRead) (s : Server)
        → Serves s (handle_tls_conn d e peer reads s)
    tick : (now : ℕ) (s : Server) → Serves s (gc_tick now s)

  -- Any interleaving of them.
  pub data Run (s : Server) : Server → Type 0 where
    idle : Run s s
    then_serves : {t u : Server} → Run s t → Serves t u → Run s u
