-- ===== src/Probe/Handlers/Records.antt =====
-- What the HTTP and TCP handlers record and answer.
use netsee.Prelude.{
  Bool-cases, List, Option, Option-cases, [], arith, false, inl, inr, length, refl, some, true, ℕ,
  ◌&&◌, ◌++◌, ◌<◌, ◌∷◌, ◌≡◌,
}
use netsee.Prelude.Dict.{lookup}
use netsee.Prelude.Int.{ltb_ℤ, pos}
use netsee.Prelude.Text.{Bytes, bytes_eq, is_empty}
use netsee.Prelude.Words.{trim_space}
use netsee.Probe.Handlers.{
  FirstRead, Request, echo_obs, handle_echo, handle_extra_conn, handle_session, header_get,
  request_session, session_key,
}
use netsee.Probe.Server.{Env, Peer, Server, blank_obs, record_obs, with_peer}
use netsee.Probe.Server.Registry.{
  Follows, Follows-refl, HoldsValid, Step-Follows, record_obs-Follows, record_obs-Follows_unless,
  with_peer-session,
}
use netsee.Probe.Server.Source.{with_peer-address}
use netsee.Proto.SessionId.{valid_session_id}
use netsee.Proto.SessionId.Laws.{valid-not_empty}
use netsee.Proto.Store.{is_expired, max_obs_per_session}
use netsee.Proto.Store.Contents.{base_session, get-append}
use netsee.Proto.Store.Runs.{get_step}
use netsee.Proto.Types.{obs_tcp}

pub handle_extra_conn-Follows :
    (decode : Bytes → Option (Bytes × Bytes)) (e : Env) (peer : Peer) (first : FirstRead)
    (dst_port : ℕ) (s : Server)
    → Follows s (handle_extra_conn decode e peer first dst_port s).0
unfolding handle_extra_conn blank_obs
handle_extra_conn-Follows decode e peer first dst_port s =
    elim (Bool-cases (first.failed && is_empty first.bytes)) [
      | inl nothing ↦ rw nothing (Follows-refl s)
      | inr some_bytes ↦ elim (Option-cases (decode (trim_space first.bytes))) [
        | inl bad ↦ rw (some_bytes, bad, handle_extra_conn) (Follows-refl s)
        | inr ((session, kind), parsed) ↦ elim (Bool-cases (valid_session_id session)) [
          | inl ok ↦
              let blank = blank_obs e obs_tcp session dst_port in
              rw (some_bytes, parsed, handle_extra_conn)
                (rw ok (
                  record_obs-Follows e session (with_peer peer blank) s
                    (with_peer-session peer blank session refl)))
          | inr bad ↦ rw (some_bytes, parsed, handle_extra_conn) (rw bad (Follows-refl s))
        ]
      ]
    ]

echo_obs-session :
    (e : Env) (peer : Peer) (r : Request) (s : Server)
    → (echo_obs e peer r s).session ≡ request_session r
unfolding echo_obs blank_obs
echo_obs-session e peer r s = with_peer-session peer _ (request_session r) refl

pub handle_echo-Follows :
    (e : Env) (peer : Peer) (r : Request) (s : Server) → Follows s (handle_echo e peer r s).0
unfolding handle_echo
handle_echo-Follows e peer r s =
    record_obs-Follows_unless (is_empty (request_session r)) e (request_session r)
      (echo_obs e peer r s) s (echo_obs-session e peer r s)

pub handle_session-Follows :
    (now : ℕ) (id : Bytes) (s : Server) → Follows s (handle_session now id s).0
unfolding handle_session
handle_session-Follows now id s = Step-Follows s (get_step now id s.store)

-- The first value of the header is the session, if it is valid.
pub request_session-lookup :
    (r : Request) (id : Bytes) (values : List Bytes)
    → lookup session_key r.header ≡ some (id ∷ values)
    → valid_session_id id ≡ true
    → request_session r ≡ id
unfolding request_session header_get
request_session-lookup r id values h ok = rw (h, header_get) (rw ok refl)

-- On a valid registry, an echo under a valid session is returned by the session's next read, last
-- among its observations, if the session is not full and has not expired.
pub handle_session-handle_echo :
    (e : Env) (peer : Peer) (r : Request) (later : ℕ) (s : Server)
    → valid_session_id (request_session r) ≡ true
    → HoldsValid s
    → length
        (base_session e.now (request_session r) (lookup (request_session r) s.store.sessions)).obs
      < max_obs_per_session
    → (ltb_ℤ (pos 0) s.store.ttl
        && is_expired s.store.ttl later
            (base_session e.now (request_session r) (lookup (request_session r) s.store.sessions)))
      ≡ false
    → (handle_session later (request_session r) (handle_echo e peer r s).0).1
      ≡ some (
          (base_session e.now (request_session r) (lookup (request_session r) s.store.sessions)).obs
          ++ (echo_obs e peer r s ∷ []))
unfolding handle_session handle_echo record_obs
handle_session-handle_echo e peer r later s ok v room live =
    let read =
      get-append e.now later (request_session r) (echo_obs e peer r s) s.store ok v.registry room
        live in
    ground (arith, valid-not_empty (request_session r) ok, read)

-- The source and the port of an echo's observation.
pub echo_obs-address :
    (e : Env) (peer : Peer) (r : Request) (s : Server) (host : Bytes) (port : ℕ)
    → peer.address ≡ some (host, port)
    → ((echo_obs e peer r s).src_ip ≡ host) × ((echo_obs e peer r s).dst_port ≡ s.info.http_port)
unfolding echo_obs blank_obs
echo_obs-address e peer r s host port h = with_peer-address peer _ host port h
