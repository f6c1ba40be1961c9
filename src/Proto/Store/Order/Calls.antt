-- ===== src/Proto/Store/Order/Calls.antt =====
-- The calls of the registry's methods, with their answers.
use netsee.Prelude.{Bool, Bool-cases, Option, ap, inl, inr, refl, ℕ, ◌≡◌}
use netsee.Prelude.Text.{Bytes}
use netsee.Proto.SessionId.{valid_session_id}
use netsee.Proto.Store.{Session, Store, append, gc, get, len}
use netsee.Proto.Store.Order.{
  Agree, NoTies, append_valid-Agree, evict_expired-Agree, get-Agree, length-Agree,
}
use netsee.Proto.Types.{Obs}

pub data Call : Type 0 where
  call_append : ℕ → Bytes → Obs → Call
  call_get : ℕ → Bytes → Call
  call_gc : ℕ → Call
  call_len : Call

pub data CallReply : Type 0 where
  reply_append : Bool → CallReply
  reply_get : Option Session → CallReply
  reply_gc : CallReply
  reply_len : ℕ → CallReply

unfoldable pub call : Call → Store → Store × CallReply
call (call_append now id o) st = let (t, ok) = append now id o st in (t, reply_append ok)
call (call_get now id) st = let (t, s) = get now id st in (t, reply_get s)
call (call_gc now) st = (gc now st, reply_gc)
call call_len st = (st, reply_len (len st))

-- Stores that hold the same sessions, without ties, give the same answer and agree behind it.
pub call-Agree :
    (c : Call) {s t : Store}
    → Agree s t
    → NoTies s.sessions
    → ((call c s).1 ≡ (call c t).1) × Agree (call c s).0 (call c t).0
unfolding call append get gc len
call-Agree (call_append now id o) {s} {t} a free = elim (Bool-cases (valid_session_id id)) [
  | inl ok ↦ rw ok (refl, append_valid-Agree now id o a free)
  | inr bad ↦ rw bad (refl, a)
]
call-Agree (call_get now id) {s} {t} a free =
    let (same, after) = get-Agree now id a in (ap reply_get same, after)
call-Agree (call_gc now) {s} {t} a free = (refl, evict_expired-Agree now a)
call-Agree call_len {s} {t} a free = (ap reply_len (length-Agree a), a)
