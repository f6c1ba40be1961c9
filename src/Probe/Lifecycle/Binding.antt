-- ===== src/Probe/Lifecycle/Binding.antt =====
-- The listeners that `Start` and `Shutdown` leave open.
use mathlib.Core.Path.{subst}
use netsee.Prelude.{
  Bool, Bool-cases, List, [], append-nil, append_assoc, arith, false, inl, inr, refl, sym, true,
  ◌&&◌, ◌++◌, ◌∷◌, ◌≡◌,
}
use netsee.Probe.Lifecycle.{
  Listener, Sockets, Started, bind_all, close_all, extra_listeners, http_ln, nat_ln, refused,
  running, shutdown, start, tls_ln, udp_ln,
}
use netsee.Probe.Server.{Config}

-- Each listener can be bound while those in front of it are open.
pub all_bound : (List Listener → Listener → Bool) → List Listener → List Listener → Bool
all_bound can_bind opened [] = true
all_bound can_bind opened (ln ∷ rest) =
    can_bind opened ln && all_bound can_bind (opened ++ (ln ∷ [])) rest

-- The listeners in front of the one that was refused could all be bound.
pub record IsRefused (can_bind : List Listener → Listener → Bool) (lns : List Listener)
    (ln : Listener) (k : Sockets) : Type 0 where
  pub before : List Listener
  pub after : List Listener
  pub splits : lns ≡ before ++ (ln ∷ after)
  pub bound : all_bound can_bind [] before ≡ true
  pub unbound : can_bind before ln ≡ false
  pub none_open : k.opened ≡ []
  pub all_closed : k.closed ≡ before

abbrev pub StartsAllOrNone : (List Listener → Listener → Bool) → List Listener → Started → Type 0
StartsAllOrNone can_bind lns (running k) =
    (all_bound can_bind [] lns ≡ true) × (k.opened ≡ lns) × (k.closed ≡ []) × (k.done ≡ false)
StartsAllOrNone can_bind lns (refused ln k) = IsRefused can_bind lns ln k

all_bound-concat :
    (can_bind : List Listener → Listener → Bool) (opened xs : List Listener) (x : Listener)
    → all_bound can_bind opened xs ≡ true
    → can_bind (opened ++ xs) x ≡ true
    → all_bound can_bind opened (xs ++ (x ∷ [])) ≡ true
unfolding all_bound
all_bound-concat can_bind opened [] x h e =
    let first : can_bind opened x ≡ true = rw (append-nil opened) at e in rw first refl
all_bound-concat can_bind opened (y ∷ xs) x h e =
    let moved = append_assoc opened (y ∷ []) xs in
    let last : can_bind ((opened ++ (y ∷ [])) ++ xs) x ≡ true = rw moved e in
    ground (arith, all_bound-concat can_bind (opened ++ (y ∷ [])) xs x (ground (arith, h)) last)

bind_all-StartsAllOrNone :
    (can_bind : List Listener → Listener → Bool) (todo opened : List Listener)
    → all_bound can_bind [] opened ≡ true
    → StartsAllOrNone can_bind
        (opened ++ todo)
        (bind_all can_bind todo (record { opened = opened; closed = []; done = false }))
unfolding bind_all close_all
bind_all-StartsAllOrNone can_bind [] opened h =
    (rw append-nil h, sym (append-nil opened), refl, refl)
bind_all-StartsAllOrNone can_bind (ln ∷ rest) opened h = elim (Bool-cases (can_bind opened ln)) [
  | inl binds ↦ rw binds (
      subst
        (λ lns. StartsAllOrNone can_bind lns (
          bind_all can_bind rest
            (record { opened = opened ++ (ln ∷ []); closed = []; done = false })))
        (append_assoc opened (ln ∷ []) rest)
        (bind_all-StartsAllOrNone can_bind rest (opened ++ (ln ∷ []))
          (all_bound-concat can_bind [] opened ln h binds)))
  | inr fails ↦ rw fails (record {
    before = opened;
    after = rest;
    splits = refl;
    bound = h;
    unbound = fails;
    none_open = refl;
    all_closed = append-nil opened;
  })
]

-- `Start` with an error leaves no socket open: the ones bound before the failure are closed, each
-- once. With no error every listener of the configuration is open.
pub start-StartsAllOrNone :
    (can_bind : List Listener → Listener → Bool) (cfg : Config)
    → StartsAllOrNone can_bind
        (http_ln ∷ tls_ln ∷ udp_ln ∷ nat_ln ∷ extra_listeners cfg.extra_ports)
        (start can_bind cfg)
unfolding start all_bound
start-StartsAllOrNone can_bind cfg = bind_all-StartsAllOrNone can_bind _ [] refl

-- The state of a server that was shut down, and that the next call of `Shutdown` leaves as it is.
pub record IsShutDown (lns : List Listener) (k : Sockets) : Type 0 where
  pub stops : k.done ≡ true
  pub none_open : k.opened ≡ []
  pub each_closed : k.closed ≡ lns
  pub again : shutdown k ≡ k

-- `Shutdown` of a server that `Start` brought up closes each listener of the configuration once and
-- leaves none open; a second call changes nothing.
pub shutdown-start :
    (can_bind : List Listener → Listener → Bool) (cfg : Config) (k : Sockets)
    → start can_bind cfg ≡ running k
    → IsShutDown (http_ln ∷ tls_ln ∷ udp_ln ∷ nat_ln ∷ extra_listeners cfg.extra_ports) (shutdown k)
unfolding shutdown close_all
shutdown-start can_bind cfg k e =
    let (bound, opened, closed, live) = rw e at (start-StartsAllOrNone can_bind cfg) in
    record {
      stops = rw live refl;
      none_open = rw live refl;
      each_closed = rw (live, opened, closed) (append-nil _);
      again = rw live refl;
    }
