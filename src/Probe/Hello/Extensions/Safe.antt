-- ===== src/Probe/Hello/Extensions/Safe.antt =====
-- The parsers of the extensions: their reads and the end of their loops.
use netsee.Prelude.{
  List, [], arith, false, if◌then◌else◌, length, ltb, not, suc, zero, ℕ, ◌%◌, ◌*◌, ◌++◌, ◌+◌, ◌/◌,
  ◌<◌, ◌==◌, ◌||◌, ◌∷◌, ◌≡◌, ◌≤◌,
}
use netsee.Prelude.Text.{Bytes}
use netsee.Probe.Hello.Extensions.{
  alpn_loop, parse_alpn, parse_point_formats, parse_sni, parse_uint16_list1, parse_uint16_list2,
  sni_loop, u16_loop,
}
use netsee.Probe.Outcome.{
  IsSafe, Outcome, bind-IsSafe, byte_at, byte_at-IsSafe, done, if-IsSafe, slice, slice-IsSafe,
  u16_at, u16_at-IsSafe, ◌>>=◌,
}

pub u16_loop-IsSafe :
    (rounds : ℕ) (d : Bytes) (i : ℕ) (out : List ℕ)
    → i + 2 * rounds ≤ length d
    → IsSafe (u16_loop rounds d i out)
unfolding u16_loop
u16_loop-IsSafe zero d i out h = tt
u16_loop-IsSafe (suc rounds) d i out h =
    bind-IsSafe (u16_at d i) _ (u16_at-IsSafe d i (omega arith))
      (λ v e. u16_loop-IsSafe rounds d (i + 2) (out ++ (v ∷ [])) (omega arith))

sni_loop-IsSafe :
    (fuel : ℕ) (d : Bytes) (n off : ℕ)
    → n ≤ length d
    → off ≤ n
    → n < fuel + off
    → IsSafe (sni_loop fuel d n off)
unfolding sni_loop
sni_loop-IsSafe zero d n off h le f = absurd (omega arith)
sni_loop-IsSafe (suc fuel) d n off h le f =
    if-IsSafe (ltb off n) _ _
      (λ inside.
        if-IsSafe (ltb n (off + 3)) _ _ (λ _. tt)
          (λ fits. bind-IsSafe (byte_at d off) _ (byte_at-IsSafe d off (ground arith)) (λ typ _.
            bind-IsSafe (u16_at d (off + 1)) _ (u16_at-IsSafe d (off + 1) (ground arith)) (λ l _.
              if-IsSafe (ltb n (off + 3 + l)) _ _ (λ _. tt)
                (λ within.
                  if-IsSafe (typ == 0) _ _
                    (λ _. slice-IsSafe d (off + 3) (off + 3 + l) (omega arith) (ground arith))
                    (λ _.
                      sni_loop-IsSafe fuel d n (off + 3 + l) h (ground arith) (omega arith)))))))
      (λ _. tt)

alpn_loop-IsSafe :
    (fuel : ℕ) (d : Bytes) (n off : ℕ) (out : List Bytes)
    → n ≤ length d
    → off ≤ n
    → n < fuel + off
    → IsSafe (alpn_loop fuel d n off out)
unfolding alpn_loop
alpn_loop-IsSafe zero d n off out h le f = absurd (omega arith)
alpn_loop-IsSafe (suc fuel) d n off out h le f =
    if-IsSafe (ltb off n) _ _
      (λ inside. bind-IsSafe (byte_at d off) _ (byte_at-IsSafe d off (ground arith)) (λ l _.
        if-IsSafe (ltb n (off + 1 + l)) _ _ (λ _. tt)
          (λ within.
            bind-IsSafe (slice d (off + 1) (off + 1 + l)) _
              (slice-IsSafe d (off + 1) (off + 1 + l) (omega arith) (ground arith))
              (λ name _.
                alpn_loop-IsSafe fuel d n (off + 1 + l) (out ++ (name ∷ [])) h (ground arith)
                  (omega arith)))))
      (λ _. tt)

-- The list behind a two-byte length: the reads of the length and of the rest.
module _ {A : Type 0} (d : Bytes) (k : ℕ → Bytes → Outcome A) where
  prefixed2-IsSafe :
      ltb (length d) 2 ≡ false
      → ((n : ℕ) (rest : Bytes) → IsSafe (k n rest))
      → IsSafe (u16_at d 0 >>= λ n. slice d 2 (length d) >>= λ rest. k n rest)
  prefixed2-IsSafe long safe = bind-IsSafe (u16_at d 0) _ (u16_at-IsSafe d 0 (ground arith)) (λ n _.
      bind-IsSafe (slice d 2 (length d)) _
        (slice-IsSafe d 2 (length d) (ground arith) (omega arith)) (λ rest _. safe n rest))

  prefixed1-IsSafe :
      ltb (length d) 1 ≡ false
      → ((n : ℕ) (rest : Bytes) → IsSafe (k n rest))
      → IsSafe (byte_at d 0 >>= λ n. slice d 1 (length d) >>= λ rest. k n rest)
  prefixed1-IsSafe long safe =
      bind-IsSafe (byte_at d 0) _ (byte_at-IsSafe d 0 (ground arith)) (λ n _.
        bind-IsSafe (slice d 1 (length d)) _
          (slice-IsSafe d 1 (length d) (ground arith) (omega arith)) (λ rest _. safe n rest))

pub parse_sni-IsSafe : (d : Bytes) → IsSafe (parse_sni d)
unfolding parse_sni
parse_sni-IsSafe d =
    if-IsSafe (ltb (length d) 2) _ _ (λ _. tt)
      (λ long. prefixed2-IsSafe d _ long (λ n rest.
        if-IsSafe (ltb (length rest) n) _ _ (λ _. tt)
          (λ fits. sni_loop-IsSafe (suc n) rest n 0 (ground arith) (omega arith) (omega arith))))

pub parse_alpn-IsSafe : (d : Bytes) → IsSafe (parse_alpn d)
unfolding parse_alpn
parse_alpn-IsSafe d =
    if-IsSafe (ltb (length d) 2) _ _ (λ _. tt)
      (λ long. prefixed2-IsSafe d _ long (λ n rest.
        if-IsSafe (ltb (length rest) n) _ _ (λ _. tt)
          (λ fits.
            alpn_loop-IsSafe (suc n) rest n 0 [] (ground arith) (omega arith) (omega arith))))

-- An even length that fits is read in pairs.
pairs-IsSafe :
    (n : ℕ) (rest : Bytes)
    → IsSafe (
        if ltb (length rest) n || not (n % 2 == 0)
        then done []
        else u16_loop ((n + 1) / 2) rest 0 [])
pairs-IsSafe n rest =
    if-IsSafe (ltb (length rest) n || not (n % 2 == 0)) _ _ (λ _. tt)
      (λ even. u16_loop-IsSafe ((n + 1) / 2) rest 0 [] (ground arith))

pub parse_uint16_list2-IsSafe : (d : Bytes) → IsSafe (parse_uint16_list2 d)
unfolding parse_uint16_list2
parse_uint16_list2-IsSafe d =
    if-IsSafe (ltb (length d) 2) _ _ (λ _. tt) (λ long. prefixed2-IsSafe d _ long pairs-IsSafe)

pub parse_uint16_list1-IsSafe : (d : Bytes) → IsSafe (parse_uint16_list1 d)
unfolding parse_uint16_list1
parse_uint16_list1-IsSafe d =
    if-IsSafe (ltb (length d) 1) _ _ (λ _. tt) (λ long. prefixed1-IsSafe d _ long pairs-IsSafe)

pub parse_point_formats-IsSafe : (d : Bytes) → IsSafe (parse_point_formats d)
unfolding parse_point_formats
parse_point_formats-IsSafe d =
    if-IsSafe (ltb (length d) 1) _ _ (λ _. tt)
      (λ long. prefixed1-IsSafe d _ long (λ n rest.
        if-IsSafe (ltb (length rest) n) _ _ (λ _. tt)
          (λ fits. slice-IsSafe rest 0 n (omega arith) (ground arith))))
