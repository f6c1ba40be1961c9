-- ===== src/Probe/Mux/Changes.antt =====
-- What a request may change.
use netsee.Probe.Handlers.Records.{handle_echo-Follows, handle_session-Follows}
use netsee.Probe.Mux.{
  Dispatch, Endpoint, HttpRequest, bad_request, dispatch, handled, moved, serve_dispatched,
  serve_endpoint, serve_request, to_echo, to_info, to_session, unrouted,
}
use netsee.Probe.Server.{Env, Peer, Server}
use netsee.Probe.Server.Registry.{Follows, Follows-refl}

-- Whatever the request, only the registry changes, by its own steps.
pub serve_request-Follows :
    (e : Env) (peer : Peer) (q : HttpRequest) (s : Server) → Follows s (serve_request e peer q s).0
unfolding serve_request serve_dispatched serve_endpoint
serve_request-Follows e peer q s = by_dispatch (dispatch q.request.method q.target q.path)
  where
    led_to : (p : Endpoint) → Follows s (serve_endpoint e peer q.request p s).0
    led_to to_info = Follows-refl s
    led_to (to_session id) = handle_session-Follows e.now id s
    led_to to_echo = handle_echo-Follows e peer q.request s

    by_dispatch : (d : Dispatch) → Follows s (serve_dispatched e peer q.request d s).0
    by_dispatch (handled p) = led_to p
    by_dispatch bad_request = Follows-refl s
    by_dispatch (moved path) = Follows-refl s
    by_dispatch unrouted = Follows-refl s
