-- ===== src/Client/Session/Deadline.antt =====
-- How long `Pull` goes on, and what it gives.
use netsee.Client.Session.{
  HttpReply, Poll, Pulled, http_failed, http_status, not_found, one_round, pull, pull_failed,
  pull_from, pull_pause, pull_rounds, pull_stuck, pull_time, pulled_obs, read_obs, unanswered,
}
use netsee.Client.Types.{Fallible, failed_with, succeeded}
use netsee.Prelude.{
  Bool-cases, List, Option, arith, inl, inr, ltb, none, refl, some, suc, zero, ℕ, ◌*◌, ◌+◌, ◌<◌,
  ◌==◌, ◌≡◌, ◌≢◌, ◌≤◌,
}
use netsee.Prelude.Text.{Bytes}
use netsee.Proto.Types.{Obs}

-- What the clock and `time.After` promise: the first reply is read after the start, and between two
-- replies lies at least the pause.
pub record IsTimed (start : ℕ) (polls : ℕ → Poll) : Type 0 where
  pub begins : start ≤ (polls 0).now
  pub waits : (n : ℕ) → (polls n).now + pull_pause ≤ (polls (suc n)).now

module _ (decode : Bytes → Fallible (List Obs)) (id : Bytes) (deadline : ℕ) where
  -- A round that ends the loop, and with what.
  pub data Ends (p : Poll) : Pulled → Type 0 where
    unreachable : (e : Bytes) → p.reply ≡ http_failed e → Ends p (pull_failed e)
    gives_obs :
        (body : Bytes) (obs : List Obs)
        → p.reply ≡ http_status 200 body
        → decode body ≡ succeeded obs
        → Ends p (pulled_obs obs)
    garbled :
        (body e : Bytes)
        → p.reply ≡ http_status 200 body
        → decode body ≡ failed_with e
        → Ends p (pull_failed e)
    too_late :
        (code : ℕ) (body : Bytes)
        → p.reply ≡ http_status code body
        → code ≢ 200
        → deadline < p.now
        → Ends p (pull_failed (not_found id))
    cut_off :
        (code : ℕ) (body e : Bytes)
        → p.reply ≡ http_status code body
        → code ≢ 200
        → p.now ≤ deadline
        → p.cancelled ≡ some e
        → Ends p (pull_failed e)

  -- A round after which the loop goes on.
  pub record GoesOn (p : Poll) : Type 0 where
    pub code : ℕ
    pub body : Bytes
    pub replied : p.reply ≡ http_status code body
    pub not_ok : code ≢ 200
    pub in_time : p.now ≤ deadline
    pub not_cancelled : p.cancelled ≡ none

  -- The first round that ends the loop gives the result.
  pub record IsFirstEnd (polls : ℕ → Poll) (r : Pulled) : Type 0 where
    pub round : ℕ
    pub few : round < pull_rounds
    pub earlier : (i : ℕ) → i < round → GoesOn (polls i)
    pub ends : Ends (polls round) r

  read_obs-Ends :
      (p : Poll) (body : Bytes)
      → p.reply ≡ http_status 200 body
      → (d : Fallible (List Obs)) → decode body ≡ d
      → Ends p (read_obs d)
  unfolding read_obs
  read_obs-Ends p body h (succeeded obs) e = gives_obs body obs h e
  read_obs-Ends p body h (failed_with w) e = garbled body w h e

  -- What the body of the loop decided.
  Decided : Poll → Option Pulled → Type 0
  Decided p none = GoesOn p
  Decided p (some r) = Ends p r

  unanswered-Decided :
      (code now : ℕ) (body : Bytes) (c : Option Bytes)
      → code ≢ 200
      → Decided
          (record { reply = http_status code body; now = now; cancelled = c })
          (unanswered id deadline
            (record { reply = http_status code body; now = now; cancelled = c }))
  unfolding Decided unanswered
  unanswered-Decided code now body c k = elim (Bool-cases (ltb deadline now)) [
    | inl late ↦ rw late (too_late code body refl k (ground arith))
    | inr early ↦ rw early (by_context c (ground arith))
  ]
    where
      by_context :
          (c : Option Bytes)
          → now ≤ deadline
          → Decided
              (record { reply = http_status code body; now = now; cancelled = c })
              (elim c [ some e ↦ some (pull_failed e) | none ↦ none ])
      by_context none le = record {
        code = code;
        body = body;
        replied = refl;
        not_ok = k;
        in_time = le;
        not_cancelled = refl;
      }
      by_context (some e) le = cut_off code body e refl k le refl

  one_round-Decided :
      (reply : HttpReply) (now : ℕ) (c : Option Bytes)
      → Decided
          (record { reply = reply; now = now; cancelled = c })
          (one_round decode id deadline (record { reply = reply; now = now; cancelled = c }))
  unfolding one_round Decided
  one_round-Decided (http_failed e) now c = unreachable e refl
  one_round-Decided (http_status code body) now c = elim (Bool-cases (code == 200)) [
    | inl ok ↦
        let e : code ≡ 200 = ground arith in rw e (read_obs-Ends _ body refl (decode body) refl)
    | inr other ↦ rw other (unanswered-Decided code now body c (ground arith))
  ]

  earlier_suc :
      (polls : ℕ → Poll) (n : ℕ)
      → ((i : ℕ) → i < n → GoesOn (polls i))
      → GoesOn (polls n)
      → (i : ℕ) → i < suc n
      → GoesOn (polls i)
  earlier_suc polls n earlier g i lt = elim (Bool-cases (i == n)) [
    | inl same ↦ let e : i ≡ n = ground arith in rw e g
    | inr other ↦ earlier i (ground arith)
  ]

  module _ (polls : ℕ → Poll) where
    -- The result of one round, or of the rounds behind it.
    by_round :
        (n : ℕ) (rest : Pulled) (o : Option Pulled)
        → n < pull_rounds
        → ((i : ℕ) → i < n → GoesOn (polls i))
        → Decided (polls n) o
        → (GoesOn (polls n) → IsFirstEnd polls rest)
        → IsFirstEnd polls (elim o [ some r ↦ r | none ↦ rest ])
    unfolding Decided
    by_round n rest none few earlier d on = on d
    by_round n rest (some r) few earlier d on = record {
      round = n;
      few = few;
      earlier = earlier;
      ends = d;
    }

    pull_from-IsFirstEnd :
        (fuel n : ℕ)
        → fuel + n < pull_rounds
        → deadline < (polls (fuel + n)).now
        → ((i : ℕ) → i < n → GoesOn (polls i))
        → IsFirstEnd polls (pull_from decode id deadline polls (suc fuel) n)
    unfolding pull_from
    pull_from-IsFirstEnd zero n few late earlier =
        let last : zero + n ≡ n = omega arith in
        by_round n pull_stuck (one_round decode id deadline (polls n)) (omega arith) earlier
          (one_round-Decided (polls n).reply (polls n).now (polls n).cancelled)
          (λ g. absurd (omega (arith, g.in_time, (rw last at late))))
    pull_from-IsFirstEnd (suc fuel) n few late earlier =
        let there : suc fuel + n ≡ fuel + suc n = omega arith in
        by_round n (pull_from decode id deadline polls (suc fuel) (suc n))
          (one_round decode id deadline (polls n)) (omega arith) earlier
          (one_round-Decided (polls n).reply (polls n).now (polls n).cancelled)
          (λ g.
            pull_from-IsFirstEnd fuel (suc n) (omega arith) (rw there at late)
              (earlier_suc polls n earlier g))

-- Where the replies come at least 20 ms apart, none before the start, `Pull` ends within 152 rounds, whatever the probe replies: with the result of
-- the first round that has an error, the status 200, a time past the deadline or a cancelled
-- context, in this order.
pub pull-IsFirstEnd :
    (decode : Bytes → Fallible (List Obs)) (id : Bytes) (start : ℕ) (polls : ℕ → Poll)
    → IsTimed start polls
    → IsFirstEnd decode id (start + pull_time) polls (pull decode id start polls)
unfolding pull
pull-IsFirstEnd decode id start polls timed =
    pull_from-IsFirstEnd decode id (start + pull_time) polls 151 0 (omega arith) late
      (λ i lt. absurd (omega arith))
  where
    later : (n : ℕ) → start + n * pull_pause ≤ (polls n).now
    later zero = omega (arith, timed.begins)
    later (suc n) = omega (arith, later n, timed.waits n)

    late : start + pull_time < (polls 151).now
    late = omega (arith, later 151)
