-- ===== src/Proto/Store/Tests.antt =====
-- Runs of the registry, and its theorems at concrete inputs.
use mathlib.Core.Path.{subst}
use netsee.Prelude.{[], arith, none, refl, some, true, ℕ, ◌*◌, ◌∷◌, ◌≡◌, ◌≢◌, ◌≤◌}
use netsee.Prelude.Dict.{erase, insert, lookup}
use netsee.Prelude.Int.{pos}
use netsee.Prelude.Text.{Bytes, bytes_beq, bytes_eq, utf8}
use netsee.Proto.SessionId.{valid_session_id}
use netsee.Proto.Store.{
  Store, append, append_valid, get, is_expired, len, make_room, new_store, push_obs,
}
use netsee.Proto.Store.Bounds.{IsValid, append-IsValid}
use netsee.Proto.Store.Contents.{KeptOrGone, base_session, lookup-append}
use netsee.Proto.Store.Runs.{Reach, Reach-bounded, append_step, at_start, next, total_obs}
use netsee.Proto.Types.{Obs, obs_udp}

abbrev id_a : Bytes
id_a = utf8 "00112233445566778899aabbccddeeff"

abbrev id_b : Bytes
id_b = utf8 "ffeeddcc-bbaa-4988-a766-554433221100"

abbrev obs_at : ℕ → Obs
obs_at t = record {
  id = utf8 "o";
  kind = obs_udp;
  session = id_a;
  src_ip = utf8 "192.0.2.1";
  src_port = 40000;
  dst_port = 8444;
  ttl = 64;
  time = t;
  http = none;
  tcp_info = none;
  tls = none;
  udp = none;
}

id_b-IsValid : valid_session_id id_b ≡ true
unfolding valid_session_id utf8
id_b-IsValid = refl

id_a-ne-id_b : id_a ≢ id_b
unfolding utf8
id_a-ne-id_b e = cc

id_a-IsValid : valid_session_id id_a ≡ true
unfolding valid_session_id utf8
id_a-IsValid = refl

-- One session, created at 10, under a cap of one session and a ttl of 100.
abbrev one : Store
one = record {
  sessions = (id_a, record { id = id_a; created = 10; obs = obs_at 10 ∷ [] }) ∷ [];
  ttl = pos 100;
  max = pos 1;
}

one-append : (append 10 id_a (obs_at 10) (new_store (pos 100) (pos 1))).0 ≡ one
unfolding append append_valid make_room push_obs new_store valid_session_id utf8 lookup insert
    is_expired
one-append = refl

-- A second session evicts the first, which is not expired.
evicts_oldest : (get 20 id_a (append 20 id_b (obs_at 20) one).0).1 ≡ none
unfolding append append_valid make_room push_obs valid_session_id utf8 lookup insert is_expired get
    erase bytes_beq
evicts_oldest = refl

one-IsValid : IsValid one
one-IsValid = record {
  distinct = (unfold lookup in refl, tt);
  entries = (record { same_id = refl; valid_id = id_a-IsValid; few_obs = omega arith }, tt);
  bounded = refl;
}

Reach-one : Reach (new_store (pos 100) (pos 1)) one
Reach-one =
    subst (λ s. Reach (new_store (pos 100) (pos 1)) s) one-append
      (next at_start (append_step 10 id_a (obs_at 10) _ refl))

one-few : (len one ≤ 1) × (total_obs one.sessions ≤ 4096 * 1)
one-few = Reach-bounded (pos 100) 1 one (omega arith) Reach-one

append-IsValid_example : IsValid (append 20 id_b (obs_at 20) one).0
append-IsValid_example = append-IsValid 20 id_b (obs_at 20) one one-IsValid

lookup_one :
    lookup id_a one.sessions ≡ some (record { id = id_a; created = 10; obs = obs_at 10 ∷ [] })
unfolding lookup bytes_beq utf8
lookup_one = refl

lookup-append_example :
    (lookup id_b (append 20 id_b (obs_at 20) one).0.sessions
      ≡ some (push_obs (obs_at 20) (base_session 20 id_b (lookup id_b one.sessions))))
    × KeptOrGone
        (lookup id_a one.sessions)
        (lookup id_a (append 20 id_b (obs_at 20) one).0.sessions)
lookup-append_example =
    lookup-append 20 id_b id_a (obs_at 20) one id_b-IsValid one-IsValid id_a-ne-id_b
