-- ===== src/Probe/System/Filed.antt =====
-- Whose observations the API gives.
use netsee.Prelude.{All, List, Option, Option-cases, inl, inr, none, some, true, ℕ, ◌≡◌}
use netsee.Prelude.Dict.{All-lookup}
use netsee.Prelude.Text.{Bytes, bytes_eq}
use netsee.Probe.Fingerprint.{Digests}
use netsee.Probe.Handlers.{handle_session}
use netsee.Probe.Server.{Bound, Config, Server, started}
use netsee.Probe.System.{Run}
use netsee.Probe.System.Bounded.{Run-Follows}
use netsee.Probe.Udp.{Decode}
use netsee.Proto.SessionId.{valid_session_id}
use netsee.Proto.Store.{get}
use netsee.Proto.Store.Filed.{
  AllFiled, IsFiled, NamesSession, Reach-AllFiled, get-held, new_store-AllFiled,
}
use netsee.Proto.Types.{Obs}

-- No answer, or observations that all name the session that was asked for, which is valid.
abbrev pub AreOwn : Bytes → Option (List Obs) → Type 0
AreOwn id none = Unit
AreOwn id (some obs) = (valid_session_id id ≡ true) × All (NamesSession id) obs

handle_session-AreOwn :
    (now : ℕ) (id : Bytes) (s : Server) → AllFiled s.store → AreOwn id (handle_session now id s).1
unfolding handle_session
handle_session-AreOwn now id s h = elim (Option-cases (get now id s.store).1) [
  | inl nothing ↦ rw (handle_session, nothing) tt
  | inr (sess, got) ↦
      let (valid, held) = get-held now id s.store sess got in
      rw (handle_session, got) (valid, All-lookup IsFiled id sess s.store.sessions h held)
]

started-AllFiled : (cfg : Config) (b : Bound) → AllFiled (started cfg b).store
unfolding started
started-AllFiled cfg b = new_store-AllFiled _ _

-- Whatever arrives at a started probe, in whatever interleaving, what its API then gives for a
-- session are observations that name this session, and it gives some only for a valid identifier.
pub Run-AreOwn :
    (decode : Decode) (d : Digests) (cfg : Config) (b : Bound) (t : Server) (now : ℕ) (id : Bytes)
    → Run decode d (started cfg b) t
    → AreOwn id (handle_session now id t).1
Run-AreOwn decode d cfg b t now id r =
    let f = Run-Follows decode d r in
    handle_session-AreOwn now id t (Reach-AllFiled (started-AllFiled cfg b) f.steps)
