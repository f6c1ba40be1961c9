-- ===== src/Probe/Serve.antt =====
-- internal/probe/server.go: the loops that accept connections, and the one that sweeps the registry.
pub mod Accepts
pub mod Sweep
pub mod Waits
mod Tests
use netsee.Prelude.{
  Bool, List, Option, [], false, if◌then◌else◌, length, ltb, none, some, true, ℕ, ◌++◌, ◌+◌, ◌/◌,
  ◌||◌, ◌∷◌,
}
use netsee.Prelude.Int.{pos_part, ℤ}
use netsee.Prelude.Text.{Bytes, utf8}
use netsee.Probe.Server.{Server, nanos_per_second}
use netsee.Probe.System.{gc_tick}
use netsee.Probe.Udp.{UdpRead, datagram, read_failed}

-- What `Accept` gives: a connection, `net.ErrClosed`, or another error.
pub data Accepted (C : Type 0) : Type 0 where
  connection : C → Accepted C
  listener_closed : Accepted C
  accept_failed : Bytes → Accepted C

-- What a loop did: the handlers it launched, in order, the lines it logged, and whether it returned.
pub record Looped (C : Type 0) : Type 0 where
  pub launched : List C
  pub logged : List Bytes
  pub returned : Bool

module _ {C : Type 0} where
  unfoldable pub serve_tls : List (Accepted C) → Looped C
  serve_tls [] = record { launched = []; logged = []; returned = false }
  serve_tls (listener_closed ∷ events) = record { launched = []; logged = []; returned = true }
  serve_tls (accept_failed e ∷ events) =
      let l = serve_tls events in record l { logged = (utf8 "tls accept: " ++ e) ∷ l.logged }
  serve_tls (connection c ∷ events) =
      let l = serve_tls events in record l { launched = c ∷ l.launched }

  -- The handler gets the port of the listener as well.
  unfoldable pub accept_extra : ℕ → List (Accepted C) → Looped (C × ℕ)
  accept_extra port [] = record { launched = []; logged = []; returned = false }
  accept_extra port (listener_closed ∷ events) = record {
    launched = [];
    logged = [];
    returned = true;
  }
  accept_extra port (accept_failed e ∷ events) =
      let l = accept_extra port events in
      record l { logged = (utf8 "extra accept: " ++ e) ∷ l.logged }
  accept_extra port (connection c ∷ events) =
      let l = accept_extra port events in record l { launched = (c, port) ∷ l.launched }

-- `serveHTTP`: what it logs when `Serve` returns, with an error that may be `http.ErrServerClosed`.
serve_http : Option (Bytes × Bool) → Option Bytes
serve_http none = none
serve_http (some (e, server_closed)) =
    if server_closed then none else some (utf8 "http serve: " ++ e)

-- The interval of the ticker: half the time to live, a second at least.
unfoldable pub gc_interval : ℤ → ℕ
gc_interval ttl =
    let half = pos_part ttl / 2 in if ltb half nanos_per_second then nanos_per_second else half

-- What `select` finds: a tick, with the time that `GC` reads, or the closed channel.
pub data GcEvent : Type 0 where
  ticked : ℕ → GcEvent
  done_closed : GcEvent

-- `gcLoop`: the server behind it, and whether it returned.
unfoldable pub gc_loop : List GcEvent → Server → Server × Bool
gc_loop [] s = (s, false)
gc_loop (done_closed ∷ events) s = (s, true)
gc_loop (ticked now ∷ events) s = gc_loop events (gc_tick now s)

-- What the loops of a started server have met so far: whether `Serve` of net/http returned, what the
-- listeners gave, and the events of the sweep.
pub record Loops (C : Type 0) : Type 0 where
  pub http_returned : Bool
  pub tls : List (Accepted C)
  pub udp : List UdpRead
  pub nat : List UdpRead
  pub extra : List (ℕ × List (Accepted C))
  pub gc : List GcEvent

-- Whether `serveUDPLoop` returned: only an error after the channel `done` was closed ends it.
udp_returned : List UdpRead → Bool
udp_returned [] = false
udp_returned (read_failed closed ∷ reads) = closed || udp_returned reads
udp_returned (datagram e payload src ttl ∷ reads) = udp_returned reads

-- A call of `wg.Done`, if there was one.
abbrev pub called : Bool → ℕ
called true = 1
called false = 0

module _ {C : Type 0} where
  extra_launched : List (ℕ × List (Accepted C)) → ℕ
  extra_launched [] = 0
  extra_launched ((port, events) ∷ extra) =
      length (accept_extra port events).launched + extra_launched extra

  extra_returned : List (ℕ × List (Accepted C)) → ℕ
  extra_returned [] = 0
  extra_returned ((port, events) ∷ extra) =
      called (accept_extra port events).returned + extra_returned extra

  -- The handlers that the accept loops launched.
  pub handlers : Loops C → ℕ
  unfolding extra_launched
  handlers l = length (serve_tls l.tls).launched + extra_launched l.extra

  -- What `wg.Add` was called with: for the loops by `Start`, and once for each handler.
  pub wait_added : Loops C → ℕ
  unfolding handlers
  wait_added l = 5 + length l.extra + handlers l

  -- The calls of `wg.Done`: by the loops that returned, and by the handlers that ended.
  pub wait_done : Loops C → Server → ℕ → ℕ
  unfolding udp_returned extra_returned
  wait_done l s ended =
      called l.http_returned
      + called (serve_tls l.tls).returned
      + called (udp_returned l.udp)
      + called (udp_returned l.nat)
      + extra_returned l.extra
      + called (gc_loop l.gc s).1
      + ended
