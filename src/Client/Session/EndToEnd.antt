-- ===== src/Client/Session/EndToEnd.antt =====
-- The client's requests over HTTP against the probe that serves them.

use mathlib.Core.List.{Memᴰ}
use mathlib.Core.List.Memᴰ
use mathlib.Core.Path.{subst}
use netsee.Client.Probed.{saw_port, with_source}
use netsee.Client.Probed.Views.{saw_port_iff}
use netsee.Client.Session.{
  HttpReply, Poll, Pulled, echo_header, echo_path, http_echo, http_status, one_round, pull,
  pull_from, pull_time, pulled_obs, read_obs, session_path,
}
use netsee.Client.Session.Carried.{lookup-echo_header}
use netsee.Client.Types.{Fallible, succeeded}
use netsee.Prelude.{
  List, Option, [], ap, arith, false, length, none, refl, some, suc, sym, true, ℕ, ◌&&◌, ◌++◌, ◌+◌,
  ◌<◌, ◌∙◌, ◌∷◌, ◌≡◌,
}
use netsee.Prelude.Dict.{lookup}
use netsee.Prelude.Int.{ltb_ℤ, pos}
use netsee.Prelude.Text.{Bytes, bytes_beq, bytes_eq, is_empty, join, utf8}
use netsee.Prelude.Words.{split, split_from}
use netsee.Probe.Handlers.{
  EchoReply, Request, echo_obs, handle_echo, handle_session, request_session, session_key,
}
use netsee.Probe.Handlers.Records.{
  echo_obs-address, handle_session-handle_echo, request_session-lookup,
}
use netsee.Probe.Mux.{
  Answer, HttpRequest, JsonEncoder, any_endpoint, by_endpoint, dispatch, echo_answer, endpoint_of,
  first_match, get_endpoint, handled, or_else, reads_only, serve_dispatched, serve_endpoint,
  serve_request, session_answer, to_echo, to_session, written,
}
use netsee.Probe.Mux.Sessions.{dispatch-session_path}
use netsee.Probe.Paths.{
  before_slash, clean_path, ends_in_slash, first_segment, from_slash, kept_elements, match_segments,
  path_unescape, unescape_from, with_byte,
}
use netsee.Probe.Server.{Env, Peer, Server}
use netsee.Probe.Server.Registry.{HoldsValid}
use netsee.Proto.SessionId.{valid_session_id}
use netsee.Proto.Store.{is_expired, max_obs_per_session}
use netsee.Proto.Store.Contents.{base_session}
use netsee.Proto.Types.{Obs}

-- What a client receives of an answer; none where the mux answers itself.
unfoldable pub http_reply_of : JsonEncoder → Answer → Option HttpReply
http_reply_of j a = elim (written j a) [ none ↦ none | some w ↦ some (http_status w.status w.body) ]

-- The request of `HTTPEcho`, as the probe sees it: other headers may stand beside its own.
pub record IsEchoRequest (id : Bytes) (q : HttpRequest) : Type 0 where
  pub method : q.request.method ≡ utf8 "GET"
  pub target : q.target ≡ echo_path
  pub path : q.path ≡ echo_path
  pub header : lookup session_key q.request.header ≡ lookup session_key (echo_header id)

-- And that of `Pull`.
pub record IsPullRequest (id : Bytes) (q : HttpRequest) : Type 0 where
  pub method : q.request.method ≡ utf8 "GET"
  pub target : q.target ≡ session_path id
  pub path : q.path ≡ session_path id

-- `HTTPEcho` ends without an error on the answer.
pub record IsAccepted (j : JsonEncoder) (a : Answer) : Type 0 where
  pub reply : HttpReply
  pub received : http_reply_of j a ≡ some reply
  pub no_error : http_echo reply ≡ none

dispatch-echo_path : dispatch (utf8 "GET") echo_path echo_path ≡ handled to_echo
unfolding dispatch endpoint_of get_endpoint first_match any_endpoint or_else by_endpoint
    match_segments first_segment path_unescape unescape_from with_byte before_slash from_slash
    clean_path kept_elements ends_in_slash split split_from join bytes_beq utf8 reads_only
dispatch-echo_path = refl

serve_echo :
    (e : Env) (peer : Peer) (id : Bytes) (q : HttpRequest) (s : Server)
    → IsEchoRequest id q
    → serve_request e peer q s
      ≡ ((handle_echo e peer q.request s).0, echo_answer (handle_echo e peer q.request s).1)
unfolding serve_request serve_dispatched serve_endpoint
serve_echo e peer id q s h =
    let routed : dispatch q.request.method q.target q.path ≡ handled to_echo =
      rw (h.method, h.target, h.path) dispatch-echo_path in
    ap (λ d. serve_dispatched e peer q.request d s) routed

serve_pull :
    (e : Env) (peer : Peer) (id : Bytes) (q : HttpRequest) (s : Server)
    → valid_session_id id ≡ true
    → IsPullRequest id q
    → serve_request e peer q s
      ≡ ((handle_session e.now id s).0, session_answer (handle_session e.now id s).1)
unfolding serve_request serve_dispatched serve_endpoint
serve_pull e peer id q s ok h =
    let routed : dispatch q.request.method q.target q.path ≡ handled (to_session id) =
      rw (h.method, h.target, h.path)
        (dispatch-session_path id (session_path id) ok (unfold utf8 bytes_beq in refl)) in
    ap (λ d. serve_dispatched e peer q.request d s) routed

echo_answer-IsAccepted : (j : JsonEncoder) (reply : EchoReply) → IsAccepted j (echo_answer reply)
unfolding http_reply_of written http_echo
echo_answer-IsAccepted j reply = record { reply = _; received = refl; no_error = refl }

http_reply_of-session :
    (j : JsonEncoder) (obs : List Obs) (reply : HttpReply)
    → http_reply_of j (session_answer (some obs)) ≡ some reply
    → reply ≡ http_status 200 (j.of_obs obs)
unfolding http_reply_of written
http_reply_of-session j obs reply h = ground (arith, h)

-- A first round that ends the loop gives its result.
pull_from-one_round :
    (decode : Bytes → Fallible (List Obs)) (id : Bytes) (deadline : ℕ) (polls : ℕ → Poll) (fuel : ℕ)
    (r : Pulled)
    → one_round decode id deadline (polls 0) ≡ some r
    → pull_from decode id deadline polls (suc fuel) 0 ≡ r
unfolding pull_from
pull_from-one_round decode id deadline polls fuel r h = rw (pull_from, h) refl

one_round-ok :
    (decode : Bytes → Fallible (List Obs)) (id body : Bytes) (deadline : ℕ) (p : Poll)
    (obs : List Obs)
    → p.reply ≡ http_status 200 body
    → decode body ≡ succeeded obs
    → one_round decode id deadline p ≡ some (pulled_obs obs)
unfolding one_round read_obs
one_round-ok decode id body deadline p obs h d = rw (h, one_round) (rw (d, read_obs) refl)

pull-first :
    (decode : Bytes → Fallible (List Obs)) (id body : Bytes) (begin : ℕ) (polls : ℕ → Poll)
    (obs : List Obs)
    → (polls 0).reply ≡ http_status 200 body
    → decode body ≡ succeeded obs
    → pull decode id begin polls ≡ pulled_obs obs
unfolding pull
pull-first decode id body begin polls obs h d =
    pull_from-one_round decode id (begin + pull_time) polls 151 (pulled_obs obs)
      (one_round-ok decode id body (begin + pull_time) (polls 0) obs h d)

-- The registry's observations of the session, and the one of the echo.
abbrev pub echoed_obs : Env → Peer → Request → Bytes → Server → List Obs
echoed_obs e peer r id s =
    (base_session e.now id (lookup id s.store.sessions)).obs ++ (echo_obs e peer r s ∷ [])

module _ (e later : Env) (peer peer' : Peer) (q r : HttpRequest) (id : Bytes) (s : Server) where
  -- The two answers, the second one with what the first request left.
  abbrev pub echoed_answer : Answer
  echoed_answer = (serve_request e peer q s).1

  abbrev pub pulled_answer : Answer
  pulled_answer = (serve_request later peer' r (serve_request e peer q s).0).1

  pub pulled_answer-echoed :
      HoldsValid s
      → valid_session_id id ≡ true
      → IsEchoRequest id q
      → IsPullRequest id r
      → length (base_session e.now id (lookup id s.store.sessions)).obs < max_obs_per_session
      → (ltb_ℤ (pos 0) s.store.ttl
          && is_expired s.store.ttl later.now (base_session e.now id (lookup id s.store.sessions)))
        ≡ false
      → pulled_answer ≡ session_answer (some (echoed_obs e peer q.request id s))
  pulled_answer-echoed v ok h k room live =
      let named : request_session q.request ≡ id =
        request_session-lookup q.request id [] (h.header ∙ lookup-echo_header id) ok in
      let read : (handle_session later.now id (handle_echo e peer q.request s).0).1
          ≡ some (echoed_obs e peer q.request id s) =
        rw named at (
          handle_session-handle_echo e peer q.request later.now s (rw named ok) v (rw named room)
            (rw named live)) in
      ap (λ a. (serve_request later peer' r a.0).1) (serve_echo e peer id q s h)
      ∙ ap (λ a. a.1) (serve_pull later peer' id r (handle_echo e peer q.request s).0 ok k)
      ∙ ap session_answer read

  -- On a valid registry, where the session is valid, not full and not expired: the probe's answer to
  -- `HTTPEcho` is accepted; and if its answer to `Pull` is what the first round of `Pull` reads, and
  -- JSON gives back the list that was encoded, `Pull` returns the session's observations with the
  -- echo's behind them, in which the client sees the probe's HTTP port if the probe knew the source.
  pub serve_request-IsDelivered :
      (j : JsonEncoder) (decode : Bytes → Fallible (List Obs)) (host : Bytes) (port begin : ℕ)
      (polls : ℕ → Poll)
      → HoldsValid s
      → valid_session_id id ≡ true
      → IsEchoRequest id q
      → IsPullRequest id r
      → length (base_session e.now id (lookup id s.store.sessions)).obs < max_obs_per_session
      → (ltb_ℤ (pos 0) s.store.ttl
          && is_expired s.store.ttl later.now (base_session e.now id (lookup id s.store.sessions)))
        ≡ false
      → decode (j.of_obs (echoed_obs e peer q.request id s))
        ≡ succeeded (echoed_obs e peer q.request id s)
      → peer.address ≡ some (host, port)
      → is_empty host ≡ false
      → http_reply_of j pulled_answer ≡ some (polls 0).reply
      → IsAccepted j echoed_answer
        × (pull decode id begin polls ≡ pulled_obs (echoed_obs e peer q.request id s))
        × (saw_port (with_source (echoed_obs e peer q.request id s)) s.info.http_port ≡ true)
  serve_request-IsDelivered j decode host port begin polls v ok h k room live codec from full
        replied =
      let accepted = echo_answer-IsAccepted j (handle_echo e peer q.request s).1 in
      let answered = pulled_answer-echoed v ok h k room live in
      let (src, dst) = echo_obs-address e peer q.request s host port from in
      (
        subst (IsAccepted j) (sym (ap (λ a. a.1) (serve_echo e peer id q s h))) accepted,
        pull-first decode id (j.of_obs (echoed_obs e peer q.request id s)) begin polls
            (echoed_obs e peer q.request id s)
            (http_reply_of-session j _ (polls 0).reply (rw answered at replied)) codec,
        (saw_port_iff (echoed_obs e peer q.request id s) s.info.http_port).1
            (echo_obs e peer q.request s, Memᴰ.append_right _ (Memᴰ.head refl), rw src full, dst),
      )
