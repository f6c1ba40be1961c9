-- ===== src/Proto/Store/Order/Replies.antt =====
-- What a series of calls answers, whatever the orders in which the calls find the map.
use netsee.Prelude.{
  Bool-cases, List, [], ap, arith, inl, inr, refl, sym, ℕ, ◌<◌, ◌↔◌, ◌∙◌, ◌∷◌, ◌≡◌,
}
use netsee.Prelude.Dict.{Distinct}
use netsee.Prelude.Text.{bytes_eq}
use netsee.Proto.SessionId.{valid_session_id}
use netsee.Proto.Store.{Store, append}
use netsee.Proto.Store.Bounds.{IsValid}
use netsee.Proto.Store.Evict.{Sessions}
use netsee.Proto.Store.Order.{Agree}
use netsee.Proto.Store.Order.Calls.{
  Call, CallReply, call, call-Agree, call_append, call_gc, call_get, call_len,
}
use netsee.Proto.Store.Order.Timely.{
  IsTimely, IsTimely-sub, append_valid-IsTimely, gc-IsTimely, get-IsTimely,
}

-- Each `Append` is later than the bound, and than those before it.
abbrev pub Increasing : ℕ → List Call → Type 0
Increasing bound [] = Unit {0}
Increasing bound (call_append now id o ∷ calls) = (bound < now) × Increasing now calls
Increasing bound (call_get now id ∷ calls) = Increasing bound calls
Increasing bound (call_gc now ∷ calls) = Increasing bound calls
Increasing bound (call_len ∷ calls) = Increasing bound calls

-- The answers of the model, which goes through the entries as they stand.
pub replies : List Call → Store → List CallReply
replies [] s = []
replies (c ∷ calls) s = let (t, r) = call c s in r ∷ replies calls t

-- The answers of calls each of which finds the entries in any order.
pub data Answers : List Call → Store → List CallReply → Type 0 where
  no_calls : {s : Store} → Answers [] s []
  then_call :
      {c : Call} {calls : List Call} {s t : Store} {rs : List CallReply}
      → Agree s t
      → Answers calls (call c t).0 rs
      → Answers (c ∷ calls) s ((call c t).1 ∷ rs)

Agree-refl : {s : Store} → Distinct s.sessions → Agree s s
Agree-refl d = record {
  same_ttl = refl;
  same_max = refl;
  same_map = λ k. refl;
  distinct = d;
  distinct' = d;
}

-- From one order by way of the order at the start to another.
Agree-across : {s t u : Store} → Agree s t → Agree s u → Agree t u
Agree-across a b = record {
  same_ttl = sym a.same_ttl ∙ b.same_ttl;
  same_max = sym a.same_max ∙ b.same_max;
  same_map = λ k. sym (a.same_map k) ∙ b.same_map k;
  distinct = a.distinct';
  distinct' = b.distinct';
}

Agree-IsTimely :
    {bound : ℕ} {s t : Store} → Agree s t → IsTimely bound s.sessions → IsTimely bound t.sessions
Agree-IsTimely {bound} {s} {t} a timely =
    IsTimely-sub s.sessions t.sessions timely (λ k x h. a.same_map k ∙ h)

IsTimely-later : {bound now : ℕ} {m : Sessions} → bound < now → IsTimely bound m → IsTimely now m
IsTimely-later later t = record {
  free = t.free;
  past = λ k a h. omega (arith, later, t.past k a h);
}

call-IsTimely :
    (c : Call) (calls : List Call) (bound : ℕ) (s : Store)
    → Distinct s.sessions
    → Increasing bound (c ∷ calls)
    → IsTimely bound s.sessions
    → (limit : ℕ) × IsTimely limit (call c s).0.sessions × Increasing limit calls
unfolding call append
call-IsTimely (call_append now id o) calls bound s d (later, rest) t = (
  now,
  elim (Bool-cases (valid_session_id id)) [
    | inl ok ↦ rw ok (append_valid-IsTimely now id o s d later t)
    | inr bad ↦ rw bad (IsTimely-later later t)
  ],
  rest,
)
call-IsTimely (call_get now id) calls bound s d rest t = (bound, get-IsTimely now id s t, rest)
call-IsTimely (call_gc now) calls bound s d rest t = (bound, gc-IsTimely now s d t, rest)
call-IsTimely call_len calls bound s d rest t = (bound, t, rest)

Answers-eq :
    (calls : List Call) (bound : ℕ) {s u : Store} {rs : List CallReply}
    → Answers calls s rs
    → Agree s u
    → IsTimely bound s.sessions
    → Increasing bound calls
    → rs ≡ replies calls u
unfolding replies
Answers-eq [] bound no_calls a timely times = refl
Answers-eq (c ∷ calls) bound {s} {u} (then_call {t = t} {rs = others} order rest) a timely times =
    let across = Agree-across order a in
    let here = Agree-IsTimely order timely in
    let (same, after) = call-Agree c across here.free in
    let (limit, behind, times') = call-IsTimely c calls bound t across.distinct times here in
    ap (λ r. r ∷ others) same
    ∙ ap (λ l. (call c u).1 ∷ l) (Answers-eq calls limit rest after behind times')

replies-Answers :
    (calls : List Call) (bound : ℕ) (s : Store)
    → Distinct s.sessions
    → IsTimely bound s.sessions
    → Increasing bound calls
    → Answers calls s (replies calls s)
unfolding replies
replies-Answers [] bound s d timely times = no_calls
replies-Answers (c ∷ calls) bound s d timely times =
    let own = Agree-refl d in
    let (_, after) = call-Agree c own timely.free in
    let (limit, behind, times') = call-IsTimely c calls bound s d times timely in
    then_call own (replies-Answers calls limit (call c s).0 after.distinct behind times')

-- Go may walk the registry's map in another order at every call. If no two sessions of a valid
-- registry were created at the same time, and the calls of `Append` come later than all of them and
-- at increasing times, then any calls of its methods have one series of answers only, whatever the
-- orders: that of the model.
pub replies-Answers_iff :
    (calls : List Call) (bound : ℕ) (s : Store) (rs : List CallReply)
    → IsValid s
    → IsTimely bound s.sessions
    → Increasing bound calls
    → Answers calls s rs ↔ (rs ≡ replies calls s)
replies-Answers_iff calls bound s rs v timely times = (
  λ h. Answers-eq calls bound h (Agree-refl v.distinct) timely times,
  λ e. rw e (replies-Answers calls bound s v.distinct timely times),
)
