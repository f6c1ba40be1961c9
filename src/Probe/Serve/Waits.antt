-- ===== src/Probe/Serve/Waits.antt =====
-- When `wg.Wait` of `Shutdown` returns.
use netsee.Prelude.{
  All, Bool, In, List, [], arith, false, inl, inr, length, refl, true, ℕ, ◌+◌, ◌↔◌, ◌∷◌, ◌≡◌, ◌≤◌,
}
use netsee.Probe.Serve.{
  Accepted, GcEvent, Loops, accept_extra, called, done_closed, extra_returned, gc_loop, handlers,
  listener_closed, serve_tls, ticked, udp_returned, wait_added, wait_done,
}
use netsee.Probe.Serve.Accepts.{accept_loops-IsServed}
use netsee.Probe.Server.{Server}
use netsee.Probe.System.{gc_tick}
use netsee.Probe.Udp.{UdpRead, datagram, read_failed}

called_le : (b : Bool) → called b ≤ 1
called_le true = omega arith
called_le false = omega arith

called_iff : (b : Bool) → (called b ≡ 1) ↔ (b ≡ true)
called_iff true = (λ h. refl, λ h. refl)
called_iff false = (λ h. absurd (omega arith), λ h. cc)

udp_returned_iff :
    (reads : List UdpRead) → (udp_returned reads ≡ true) ↔ In (read_failed true) reads
unfolding udp_returned
udp_returned_iff [] = ground arith
udp_returned_iff (read_failed true ∷ reads) = (λ h. inl refl, λ h. refl)
udp_returned_iff (read_failed false ∷ reads) =
    let rest = udp_returned_iff reads in
    (λ h. inr (rest.0 h), λ m. elim m [ inl same ↦ cc | inr later ↦ rest.1 later ])
udp_returned_iff (datagram e payload src ttl ∷ reads) =
    let rest = udp_returned_iff reads in
    (λ h. inr (rest.0 h), λ m. elim m [ inl same ↦ cc | inr later ↦ rest.1 later ])

gc_returned_iff :
    (events : List GcEvent) (s : Server) → ((gc_loop events s).1 ≡ true) ↔ In done_closed events
unfolding gc_loop
gc_returned_iff [] s = ground arith
gc_returned_iff (done_closed ∷ events) s = (λ h. inl refl, λ h. refl)
gc_returned_iff (ticked now ∷ events) s =
    let rest = gc_returned_iff events (gc_tick now s) in
    (λ h. inr (rest.0 h), λ m. elim m [ inl same ↦ cc | inr later ↦ rest.1 later ])

module _ {C : Type 0} where
  extra_returned_le : (extra : List (ℕ × List (Accepted C))) → extra_returned extra ≤ length extra
  unfolding extra_returned
  extra_returned_le [] = omega arith
  extra_returned_le ((port, events) ∷ extra) =
      omega (arith, extra_returned_le extra, called_le (accept_extra port events).returned)

  -- Every extra listener was closed.
  abbrev pub AllClosed : List (ℕ × List (Accepted C)) → Type 0
  AllClosed extra = All (λ e. In listener_closed e.1) extra

  extra_returned_iff :
      (extra : List (ℕ × List (Accepted C)))
      → (extra_returned extra ≡ length extra) ↔ AllClosed extra
  unfolding extra_returned
  extra_returned_iff [] = (λ h. tt, λ h. refl)
  extra_returned_iff ((port, events) ∷ extra) =
      let r = (accept_extra port events).returned in
      let ends = (accept_loops-IsServed port events).1.ends in
      let rest = extra_returned_iff extra in
      (
        λ h. (
          ends.0 ((called_iff r).0 (omega (arith, h, extra_returned_le extra, called_le r))),
          rest.0 (omega (arith, h, extra_returned_le extra, called_le r)),
        ),
        λ c. omega (arith, (called_iff r).1 (ends.1 c.0), rest.1 c.1),
      )

  -- Every loop met its end, and every handler ended.
  pub record HasEnded (l : Loops C) (ended : ℕ) : Type 0 where
    pub http_ended : l.http_returned ≡ true
    pub tls_closed : In listener_closed l.tls
    pub udp_closed : In (read_failed true) l.udp
    pub nat_closed : In (read_failed true) l.nat
    pub extra_closed : AllClosed l.extra
    pub gc_ended : In done_closed l.gc
    pub handlers_ended : ended ≡ handlers l

-- Five counts of at most one, and two that are bounded, have their largest sum only at their bounds.
all_called :
    {a b c d e g h n k : ℕ}
    → a ≤ 1
    → b ≤ 1
    → c ≤ 1
    → d ≤ 1
    → e ≤ n
    → g ≤ 1
    → h ≤ k
    → a + b + c + d + e + g + h ≡ 5 + n + k
    → (a ≡ 1) × (b ≡ 1) × (c ≡ 1) × (d ≡ 1) × (e ≡ n) × (g ≡ 1) × (h ≡ k)
all_called a b c d e g h sum =
    (omega arith, omega arith, omega arith, omega arith, omega arith, omega arith, omega arith)

-- The wait group never falls below zero, and `wg.Wait`, with which `Shutdown` ends, returns if and
-- only if the HTTP server returned, the TLS listener, both UDP sockets and every extra listener gave
-- their closing error, the sweep saw the channel `done` closed, and each handler that was launched
-- ended. No more handlers end than were launched.
pub wait_done-HasEnded :
    {C : Type 0} (l : Loops C) (s : Server) (ended : ℕ)
    → ended ≤ handlers l
    → (wait_done l s ended ≤ wait_added l)
      × ((wait_done l s ended ≡ wait_added l) ↔ HasEnded l ended)
unfolding wait_done wait_added
wait_done-HasEnded l s ended few =
    let tls = (serve_tls l.tls).returned in
    let udp = udp_returned l.udp in
    let nat = udp_returned l.nat in
    let gc = (gc_loop l.gc s).1 in
    let le_http = called_le l.http_returned in
    let le_tls = called_le tls in
    let le_udp = called_le udp in
    let le_nat = called_le nat in
    let le_extra = extra_returned_le l.extra in
    let le_gc = called_le gc in
    (
      omega (arith, le_http, le_tls, le_udp, le_nat, le_extra, le_gc),
      (
        λ h.
            let (by_http, by_tls, by_udp, by_nat, by_extra, by_gc, by_handlers) =
              all_called le_http le_tls le_udp le_nat le_extra le_gc few h in
            record {
              http_ended = (called_iff l.http_returned).0 by_http;
              tls_closed = (accept_loops-IsServed 0 l.tls).0.ends.0 ((called_iff tls).0 by_tls);
              udp_closed = (udp_returned_iff l.udp).0 ((called_iff udp).0 by_udp);
              nat_closed = (udp_returned_iff l.nat).0 ((called_iff nat).0 by_nat);
              extra_closed = (extra_returned_iff l.extra).0 by_extra;
              gc_ended = (gc_returned_iff l.gc s).0 ((called_iff gc).0 by_gc);
              handlers_ended = by_handlers;
            },
        λ e. omega (
          arith,
          (called_iff l.http_returned).1 e.http_ended,
          (called_iff tls).1 ((accept_loops-IsServed 0 l.tls).0.ends.1 e.tls_closed),
          (called_iff udp).1 ((udp_returned_iff l.udp).1 e.udp_closed),
          (called_iff nat).1 ((udp_returned_iff l.nat).1 e.nat_closed),
          (extra_returned_iff l.extra).1 e.extra_closed,
          (called_iff gc).1 ((gc_returned_iff l.gc s).1 e.gc_ended),
          e.handlers_ended,
        ),
      ),
    )
