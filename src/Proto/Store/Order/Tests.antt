-- ===== src/Proto/Store/Order/Tests.antt =====
-- Two sessions in both orders of the map.
use netsee.Prelude.{List, [], arith, none, refl, ◌↔◌, ◌∷◌, ◌≡◌, ◌≢◌}
use netsee.Prelude.Dict.{lookup}
use netsee.Prelude.Int.{pos}
use netsee.Prelude.Text.{Bytes, bytes_beq, bytes_beq_iff, bytes_eq, utf8}
use netsee.Proto.SessionId.{valid_session_id}
use netsee.Proto.Store.{Session, Store, append, new_store}
use netsee.Proto.Store.Bounds.{IsValid, new_store-IsValid}
use netsee.Proto.Store.Order.{Agree}
use netsee.Proto.Store.Order.Calls.{Call, call_append, call_get, call_len}
use netsee.Proto.Store.Order.Commute.{append-exchange, has_room, registry}
use netsee.Proto.Store.Order.Replies.{Answers, replies, replies-Answers_iff}
use netsee.Proto.Store.Order.Timely.{IsTimely}
use netsee.Proto.Types.{Obs, obs_udp}

abbrev id_a : Bytes
id_a = utf8 "00112233445566778899aabbccddeeff"

abbrev id_b : Bytes
id_b = utf8 "ffeeddccbbaa99887766554433221100"

abbrev entry_a : Bytes × Session
entry_a = (id_a, record { id = id_a; created = 10; obs = [] })

abbrev entry_b : Bytes × Session
entry_b = (id_b, record { id = id_b; created = 20; obs = [] })

abbrev in_order : List (Bytes × Session) → Store
in_order m = record { sessions = m; ttl = pos 100; max = pos 2 }

abbrev two : Store
two = in_order (entry_a ∷ entry_b ∷ [])

abbrev two_reversed : Store
two_reversed = in_order (entry_b ∷ entry_a ∷ [])

id_a-ne-id_b : id_a ≢ id_b
unfolding utf8
id_a-ne-id_b e = cc

two-IsValid : IsValid two
unfolding lookup bytes_beq utf8 valid_session_id
two-IsValid = record {
  distinct = (refl, (refl, tt));
  entries = (
    record { same_id = refl; valid_id = refl; few_obs = omega arith },
    (record { same_id = refl; valid_id = refl; few_obs = omega arith }, tt),
  );
  bounded = refl;
}

two-Agree : Agree two two_reversed
two-Agree = record {
  same_ttl = refl;
  same_max = refl;
  same_map = λ k.
      unfold lookup in ground (arith, bytes_beq_iff id_a k, bytes_beq_iff id_b k, id_a-ne-id_b);
  distinct = two-IsValid.distinct;
  distinct' = unfold lookup bytes_beq utf8 in (refl, (refl, tt));
}

two-IsTimely : IsTimely 20 two.sessions
two-IsTimely = record {
  free = λ j k a b g h e.
      unfold lookup in
      ground (
        arith,
        bytes_beq_iff id_a k,
        bytes_beq_iff id_b k,
        bytes_beq_iff id_a j,
        bytes_beq_iff id_b j,
        g,
        h,
        e,
      );
  past = λ k a g. unfold lookup in ground (arith, g);
}

-- A third session evicts the first; then the sessions are counted and the second one is read.
abbrev third : Bytes
third = utf8 "99999999999999999999999999999999"

abbrev some_obs : Obs
some_obs = record {
  id = utf8 "o";
  kind = obs_udp;
  session = third;
  src_ip = [];
  src_port = 0;
  dst_port = 8444;
  ttl = 64;
  time = 30;
  http = none;
  tcp_info = none;
  tls = none;
  udp = none;
}

abbrev three_calls : List Call
three_calls = call_append 30 third some_obs ∷ call_len ∷ call_get 40 id_b ∷ []

replies-Answers_iff_example :
    Answers three_calls two (replies three_calls two_reversed)
    ↔ (replies three_calls two_reversed ≡ replies three_calls two)
replies-Answers_iff_example =
    replies-Answers_iff three_calls 20 two (replies three_calls two_reversed) two-IsValid
      two-IsTimely (omega arith, tt)

append-exchange_example :
    registry (append 8 id_b some_obs (append 7 id_a some_obs (new_store (pos 100) (pos 3))).0).0
    ≡ registry (append 7 id_a some_obs (append 8 id_b some_obs (new_store (pos 100) (pos 3))).0).0
unfolding has_room new_store
append-exchange_example =
    append-exchange 7 8 id_a id_b some_obs some_obs (new_store (pos 100) (pos 3))
      (new_store-IsValid (pos 100) (pos 3)) refl id_a-ne-id_b
