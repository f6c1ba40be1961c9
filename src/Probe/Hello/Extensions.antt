-- ===== src/Probe/Hello/Extensions.antt =====
-- internal/probe/ja3.go: the parsers of the extensions that the fingerprints read.
pub mod Safe
use netsee.Prelude.{
  List, [], if◌then◌else◌, length, ltb, not, suc, zero, ℕ, ◌%◌, ◌++◌, ◌+◌, ◌/◌, ◌==◌, ◌||◌, ◌∷◌,
}
use netsee.Prelude.Text.{Bytes}
use netsee.Probe.Outcome.{Outcome, byte_at, done, slice, stuck, u16_at, ◌>>=◌}

-- `for i := 0; i < n; i += 2 { out = append(out, Uint16(d[i:])) }`, by the rounds left.
unfoldable pub u16_loop : ℕ → Bytes → ℕ → List ℕ → Outcome (List ℕ)
u16_loop zero d i out = done out
u16_loop (suc rounds) d i out = do v ← u16_at d i; u16_loop rounds d (i + 2) (out ++ (v ∷ []))

-- The loop of `parseSNI` from `pos`.
unfoldable pub sni_loop : ℕ → Bytes → ℕ → ℕ → Outcome Bytes
sni_loop zero d n off = stuck
sni_loop (suc fuel) d n off =
    let entry = do
      typ ← byte_at d off
      l ← u16_at d (off + 1)
      let rest = sni_loop fuel d n (off + 3 + l)
      if ltb n (off + 3 + l)
          then done []
          else if typ == 0
          then slice d (off + 3) (off + 3 + l)
          else rest
    in if ltb off n then (if ltb n (off + 3) then done [] else entry) else done []

unfoldable pub parse_sni : Bytes → Outcome Bytes
parse_sni d = if ltb (length d) 2 then done [] else do
  n ← u16_at d 0
  rest ← slice d 2 (length d)
  if ltb (length rest) n then done [] else sni_loop (suc n) rest n 0

-- The loop of `parseALPN` from `pos`.
unfoldable pub alpn_loop : ℕ → Bytes → ℕ → ℕ → List Bytes → Outcome (List Bytes)
alpn_loop zero d n off out = stuck
alpn_loop (suc fuel) d n off out =
    let entry = do
      l ← byte_at d off
      let next = do
        name ← slice d (off + 1) (off + 1 + l)
        alpn_loop fuel d n (off + 1 + l) (out ++ (name ∷ []))
      if ltb n (off + 1 + l) then done [] else next
    in if ltb off n then entry else done out

unfoldable pub parse_alpn : Bytes → Outcome (List Bytes)
parse_alpn d = if ltb (length d) 2 then done [] else do
  n ← u16_at d 0
  rest ← slice d 2 (length d)
  if ltb (length rest) n then done [] else alpn_loop (suc n) rest n 0 []

unfoldable pub parse_uint16_list2 : Bytes → Outcome (List ℕ)
parse_uint16_list2 d = if ltb (length d) 2 then done [] else do
  n ← u16_at d 0
  rest ← slice d 2 (length d)
  if ltb (length rest) n || not (n % 2 == 0) then done [] else u16_loop ((n + 1) / 2) rest 0 []

unfoldable pub parse_uint16_list1 : Bytes → Outcome (List ℕ)
parse_uint16_list1 d = if ltb (length d) 1 then done [] else do
  n ← byte_at d 0
  rest ← slice d 1 (length d)
  if ltb (length rest) n || not (n % 2 == 0) then done [] else u16_loop ((n + 1) / 2) rest 0 []

unfoldable pub parse_point_formats : Bytes → Outcome Bytes
parse_point_formats d = if ltb (length d) 1 then done [] else do
  n ← byte_at d 0
  rest ← slice d 1 (length d)
  if ltb (length rest) n then done [] else slice rest 0 n
