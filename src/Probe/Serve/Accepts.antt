-- ===== src/Probe/Serve/Accepts.antt =====
-- Which connections the accept loops hand to a handler.
use netsee.Prelude.{Bool, In, List, [], ap, arith, inl, inr, refl, true, ℕ, ◌↔◌, ◌∷◌, ◌≡◌, ◌≢◌}
use netsee.Probe.Serve.{
  Accepted, Looped, accept_extra, accept_failed, connection, listener_closed, serve_tls,
}

module _ {C D : Type 0} (hand : C → D) where
  -- What is handed over for the connections that come before the listener is closed.
  abbrev pub handed : List (Accepted C) → List D
  handed [] = []
  handed (listener_closed ∷ events) = []
  handed (accept_failed e ∷ events) = handed events
  handed (connection c ∷ events) = hand c ∷ handed events

  -- The loop launched a handler for each of them and returned if the listener was closed.
  pub record IsServed (events : List (Accepted C)) (l : Looped D) : Type 0 where
    pub each : l.launched ≡ handed events
    pub ends : (l.returned ≡ true) ↔ In listener_closed events

module _ {C : Type 0} where
  closed_later :
      (a : Accepted C) (events : List (Accepted C)) (r : Bool)
      → listener_closed ≢ a
      → (r ≡ true) ↔ In listener_closed events
      → (r ≡ true) ↔ In listener_closed (a ∷ events)
  closed_later a events r other h =
      (λ e. inr (h.0 e), λ m. elim m [ inl same ↦ absurd (other same) | inr later ↦ h.1 later ])

  serve_tls-IsServed : (events : List (Accepted C)) → IsServed (λ c. c) events (serve_tls events)
  unfolding serve_tls
  serve_tls-IsServed [] = record { each = refl; ends = ground arith }
  serve_tls-IsServed (listener_closed ∷ events) = record {
    each = refl;
    ends = (λ e. inl refl, λ m. refl);
  }
  serve_tls-IsServed (accept_failed e ∷ events) =
      let h = serve_tls-IsServed events in
      record { each = h.each; ends = closed_later (accept_failed e) events _ (λ s. cc) h.ends }
  serve_tls-IsServed (connection c ∷ events) =
      let h = serve_tls-IsServed events in
      record {
        each = ap (λ cs. c ∷ cs) h.each;
        ends = closed_later (connection c) events _ (λ s. cc) h.ends;
      }

  accept_extra-IsServed :
      (port : ℕ) (events : List (Accepted C))
      → IsServed (λ c. (c, port)) events (accept_extra port events)
  unfolding accept_extra
  accept_extra-IsServed port [] = record { each = refl; ends = ground arith }
  accept_extra-IsServed port (listener_closed ∷ events) = record {
    each = refl;
    ends = (λ e. inl refl, λ m. refl);
  }
  accept_extra-IsServed port (accept_failed e ∷ events) =
      let h = accept_extra-IsServed port events in
      record { each = h.each; ends = closed_later (accept_failed e) events _ (λ s. cc) h.ends }
  accept_extra-IsServed port (connection c ∷ events) =
      let h = accept_extra-IsServed port events in
      record {
        each = ap (λ cs. (c, port) ∷ cs) h.each;
        ends = closed_later (connection c) events _ (λ s. cc) h.ends;
      }

-- The accept loops launch one handler for each connection that comes before the listener is closed,
-- in the order of arrival, at an extra port with the number of that port; another error stops
-- neither; and they return if and only if the listener is closed.
pub accept_loops-IsServed :
    {C : Type 0} (port : ℕ) (events : List (Accepted C))
    → IsServed (λ c. c) events (serve_tls events)
      × IsServed (λ c. (c, port)) events (accept_extra port events)
accept_loops-IsServed port events = (serve_tls-IsServed events, accept_extra-IsServed port events)
