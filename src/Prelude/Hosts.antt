-- ===== src/Prelude/Hosts.antt =====
-- `net.JoinHostPort` and `net.SplitHostPort`.
pub mod RoundTrip
mod Examples
use Prim.Native.Nat.{ℕ, ◌+◌}
use mathlib.Core.Bool.{Bool, true, false, ◌||◌}
use mathlib.Core.Option.{Option, none, some}
use mathlib.Core.List.{List, [], ◌∷◌, ◌++◌}
use netsee.Prelude.Lists.{drop, length}
use netsee.Prelude.Tests.{◌==◌, if◌then◌else◌}
use netsee.Prelude.Text.{Bytes}
use netsee.Prelude.Words.{itoa}

-- `IndexByte(s, c) >= 0`
unfoldable pub has_byte : ℕ → Bytes → Bool
has_byte c [] = false
has_byte c (d ∷ s) = d == c || has_byte c s

-- What stands before and behind the first `c`.
cut_first : ℕ → Bytes → Option (Bytes × Bytes)
cut_first c [] = none
cut_first c (d ∷ s) =
    let rest = cut_first c s in
    if d == c then some ([], s) else elim rest [ none ↦ none | some (a, b) ↦ some (d ∷ a, b) ]

-- What stands before and behind the last `c`.
cut_last : ℕ → Bytes → Option (Bytes × Bytes)
cut_last c [] = none
cut_last c (d ∷ s) = elim (cut_last c s) [
  | some (a, b) ↦ some (d ∷ a, b)
  | none ↦ if d == c then some ([], s) else none
]

-- `net.JoinHostPort(host, strconv.Itoa(port))`
unfoldable pub net_join_host_port : Bytes → ℕ → Bytes
net_join_host_port host port =
    if has_byte b':' host
    then b'[' ∷ (host ++ (b']' ∷ b':' ∷ itoa port))
    else host ++ (b':' ∷ itoa port)

-- An address that starts with a bracket: the first closing one stands before the last colon, and
-- there are no others.
bracketed : Bytes → Bytes → Bytes → Option (Bytes × Bytes)
unfolding cut_first
bracketed address front port = elim (cut_first b']' address) [
  | none ↦ none
  | some (before, after) ↦
      if length before + 1 == length front
      then if has_byte b'[' (drop 1 address) || has_byte b']' after
        then none
        else some (drop 1 before, port)
      else none
]

unbracketed : Bytes → Bytes → Bytes → Option (Bytes × Bytes)
unbracketed address front port =
    if has_byte b':' front || has_byte b'[' address || has_byte b']' address
    then none
    else some (front, port)

-- `net.SplitHostPort`, whose errors are not told apart.
pub net_split_host_port : Bytes → Option (Bytes × Bytes)
unfolding bracketed unbracketed cut_last
net_split_host_port [] = none
net_split_host_port (c ∷ s) = elim (cut_last b':' (c ∷ s)) [
  | none ↦ none
  | some (front, port) ↦
      if c == b'[' then bracketed (c ∷ s) front port else unbracketed (c ∷ s) front port
]
