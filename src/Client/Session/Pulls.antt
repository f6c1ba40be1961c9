-- ===== src/Client/Session/Pulls.antt =====
-- Where the observations that `Pull` gives come from.
use netsee.Client.Session.{
  HttpReply, Poll, http_failed, http_status, one_round, pull, pull_failed, pull_from, pull_rounds,
  pull_time, pulled_obs, read_obs, status_ok, unanswered,
}
use netsee.Client.Types.{Fallible, failed_with, succeeded}
use netsee.Prelude.{
  ==_iff, Bool-cases, List, Option-cases, ap, arith, inl, inr, refl, some, suc, zero, ℕ, ◌+◌, ◌==◌,
  ◌∙◌, ◌≡◌,
}
use netsee.Prelude.Text.{Bytes}
use netsee.Proto.Types.{Obs}

module _ (decode : Bytes → Fallible (List Obs)) (id : Bytes) (deadline : ℕ) where
  -- One of the replies decodes to them.
  abbrev pub Replied : (ℕ → Poll) → List Obs → Type 0
  Replied polls obs =
      (n : ℕ) × (body : Bytes) × ((polls n).reply ≡ http_status 200 body)
      × (decode body ≡ succeeded obs)

  read_obs-pulled :
      (d : Fallible (List Obs)) (obs : List Obs) → read_obs d ≡ pulled_obs obs → d ≡ succeeded obs
  unfolding read_obs
  read_obs-pulled (succeeded got) obs h = ground (arith, h)
  read_obs-pulled (failed_with e) obs h = cc

  unanswered-pulled :
      (p : Poll) (obs : List Obs) → unanswered id deadline p ≡ some (pulled_obs obs) → ⊥
  unfolding unanswered
  unanswered-pulled p obs h = ground (arith, h)

  one_round-pulled :
      (reply : HttpReply) (p : Poll) (obs : List Obs)
      → p.reply ≡ reply
      → one_round decode id deadline p ≡ some (pulled_obs obs)
      → (body : Bytes) × (reply ≡ http_status 200 body) × (decode body ≡ succeeded obs)
  unfolding one_round
  one_round-pulled (http_failed e) p obs r h =
      let no : some (pull_failed e) ≡ some (pulled_obs obs) = rw (one_round, r) at h in cc
  one_round-pulled (http_status code body) p obs r h = elim (Bool-cases (code == status_ok)) [
    | inl ok ↦
        let got : some (read_obs (decode body)) ≡ some (pulled_obs obs) =
          rw (one_round, r, ok) at h in
        (
          body,
          ap (λ c. http_status c body) ((==_iff code status_ok).0 ok),
          read_obs-pulled (decode body) obs (ground (arith, got)),
        )
    | inr other ↦ absurd (unanswered-pulled p obs (rw (one_round, r, other) at h))
  ]

  pull_from-Replied :
      (polls : ℕ → Poll) (fuel n : ℕ) (obs : List Obs)
      → pull_from decode id deadline polls fuel n ≡ pulled_obs obs
      → Replied polls obs
  unfolding pull_from
  pull_from-Replied polls zero n obs h = cc
  pull_from-Replied polls (suc fuel) n obs h =
      elim (Option-cases (one_round decode id deadline (polls n))) [
        | inl goes_on ↦ pull_from-Replied polls fuel (suc n) obs (rw (pull_from, goes_on) at h)
        | inr (r, e) ↦
            let same : r ≡ pulled_obs obs = rw (pull_from, e) at h in
            let (body, reply, decoded) =
              one_round-pulled (polls n).reply (polls n) obs refl (e ∙ ap some same) in
            (n, body, reply, decoded)
      ]

pub pull-Replied :
    (decode : Bytes → Fallible (List Obs)) (id : Bytes) (begin : ℕ) (polls : ℕ → Poll)
    (obs : List Obs)
    → pull decode id begin polls ≡ pulled_obs obs
    → (n : ℕ) × (body : Bytes) × ((polls n).reply ≡ http_status 200 body)
      × (decode body ≡ succeeded obs)
unfolding pull
pull-Replied decode id begin polls obs h =
    pull_from-Replied decode id (begin + pull_time) polls pull_rounds 0 obs h
