-- ===== src/Proto/Store/Order/Timely.antt =====
-- Registries whose sessions were created at different times, none of them late.
use netsee.Prelude.{
  Bool-cases, Option, ap, arith, inl, inr, none, refl, some, sym, ℕ, ◌<◌, ◌∙◌, ◌≡◌, ◌≤◌,
}
use netsee.Prelude.Dict.{Distinct, lookup, lookup-erase}
use netsee.Prelude.Text.{Bytes, bytes_beq, bytes_beq_iff, bytes_eq, bytes_ne}
use netsee.Proto.Store.{Session, Store, append_valid, gc, get, push_obs}
use netsee.Proto.Store.Contents.{base_session, evict_expired-KeptOrGone, lookup-append_valid}
use netsee.Proto.Store.Evict.{Sessions}
use netsee.Proto.Store.Order.{NoTies}
use netsee.Proto.Types.{Obs}

-- No two sessions were created at the same time, and none behind the bound.
pub record IsTimely (bound : ℕ) (m : Sessions) : Type 0 where
  pub free : NoTies m
  pub past : (k : Bytes) (a : Session) → lookup k m ≡ some a → a.created ≤ bound

-- A map that holds no other sessions.
pub IsTimely-sub :
    {bound : ℕ} (m n : Sessions)
    → IsTimely bound m
    → ((k : Bytes) (a : Session) → lookup k n ≡ some a → lookup k m ≡ some a)
    → IsTimely bound n
IsTimely-sub m n t h = record {
  free = λ j k a b g g' e. t.free j k a b (h j a g) (h k b g') e;
  past = λ k a g. t.past k a (h k a g);
}

pub gc-IsTimely :
    (now : ℕ) {bound : ℕ} (s : Store)
    → Distinct s.sessions
    → IsTimely bound s.sessions
    → IsTimely bound (gc now s).sessions
unfolding gc
gc-IsTimely now s d t =
    IsTimely-sub s.sessions (gc now s).sessions t
      (λ k a g. ground (arith, g, evict_expired-KeptOrGone now k s d))

pub get-IsTimely :
    (now : ℕ) (id : Bytes) {bound : ℕ} (s : Store)
    → IsTimely bound s.sessions
    → IsTimely bound (get now id s).0.sessions
unfolding get
get-IsTimely now id s t =
    IsTimely-sub s.sessions (get now id s).0.sessions t
      (λ k a g. ground (arith, g, lookup-erase id k s.sessions))

-- Where an entry comes from that is held behind an `Append`: from an entry of the same id and age,
-- or from the call.
data Origin (now : ℕ) (id : Bytes) (s : Store) (k : Bytes) (a : Session) : Type 0 where
  old : (x : Session) → lookup k s.sessions ≡ some x → a.created ≡ x.created → Origin now id s k a
  made : k ≡ id → a.created ≡ now → Origin now id s k a

push_obs-created : (o : Obs) (s : Session) → (push_obs o s).created ≡ s.created
unfolding push_obs
push_obs-created o s = ground arith

base_session-Origin :
    (now : ℕ) (id : Bytes) (s : Store) (a : Session) (held : Option Session)
    → lookup id s.sessions ≡ held
    → a.created ≡ (base_session now id held).created
    → Origin now id s id a
base_session-Origin now id s a none h e = made refl e
base_session-Origin now id s a (some x) h e = old x h e

append_valid-Origin :
    (now : ℕ) (id : Bytes) (o : Obs) (s : Store)
    → Distinct s.sessions
    → (k : Bytes) (a : Session) → lookup k (append_valid now id o s).sessions ≡ some a
    → Origin now id s k a
append_valid-Origin now id o s d k a h = elim (Bool-cases (bytes_beq k id)) [
  | inl same ↦
      let e : k ≡ id = (bytes_beq_iff k id).0 same in
      let (own, _) = lookup-append_valid now id id o s d in
      let stored : lookup id (append_valid now id o s).sessions ≡ some a = rw e at h in
      let is_pushed : a ≡ push_obs o (base_session now id (lookup id s.sessions)) =
        ground (arith, own, stored) in
      rw e (
        base_session-Origin now id s a (lookup id s.sessions) refl
          (ap (λ x. x.created) is_pushed ∙ push_obs-created o _))
  | inr other ↦
      let (_, kept) = lookup-append_valid now id k o s d in
      old a (ground (arith, h, kept (bytes_ne k id other))) refl
]

pub append_valid-IsTimely :
    (now : ℕ) (id : Bytes) (o : Obs) {bound : ℕ} (s : Store)
    → Distinct s.sessions
    → bound < now
    → IsTimely bound s.sessions
    → IsTimely now (append_valid now id o s).sessions
append_valid-IsTimely now id o {bound} s d later t = record {
  free = λ j k a b g h e.
      untied j k a b e (append_valid-Origin now id o s d j a g)
        (append_valid-Origin now id o s d k b h);
  past = λ k a g. before k a (append_valid-Origin now id o s d k a g);
}
  where
    untied :
        (j k : Bytes) (a b : Session)
        → a.created ≡ b.created
        → Origin now id s j a
        → Origin now id s k b
        → j ≡ k
    untied j k a b e (old x g c) (old y h c') = t.free j k x y g h (omega (arith, c, c', e))
    untied j k a b e (old x g c) (made i c') = absurd (omega (arith, t.past j x g, c, c', e))
    untied j k a b e (made i c) (old y h c') = absurd (omega (arith, t.past k y h, c, c', e))
    untied j k a b e (made i c) (made i' c') = i ∙ sym i'

    before : (k : Bytes) (a : Session) → Origin now id s k a → a.created ≤ now
    before k a (old x g c) = omega (arith, t.past k x g, c)
    before k a (made i c) = omega (arith, c)
