-- ===== src/Probe/Hello/Stream.antt =====
-- The parser on a stream of reads.
use netsee.Prelude.{
  Bool-cases, List, [], ap, append-nil, append_assoc, arith, inl, inr, length, length-append, ltb,
  refl, sym, ℕ, ◌++◌, ◌+◌, ◌∙◌, ◌∷◌, ◌≡◌, ◌≢◌, ◌≤◌, ◌⊎◌,
}
use netsee.Prelude.Text.{Bytes}
use netsee.Probe.Hello.{
  ClientHello, Fed, HelloParser, crashed, feed, finish_feed, hello, max_hello_bytes, more,
  not_hello, parse_client_hello,
}
use netsee.Probe.Hello.Safe.{parse_client_hello-IsSafe}
use netsee.Probe.Outcome.{
  IsSafe, Outcome, byte_at-append, byte_at-done, done, invalid, need_more, panic, slice-append,
  stuck, u16_at, u16_at-append, u16_at-done,
}

-- The first record is there: its header, and as many bytes as the header says.
pub record HasRecord (b : Bytes) : Type 0 where
  pub size : ℕ
  pub header : 5 ≤ length b
  pub size_is : u16_at b 3 ≡ done size
  pub content : 5 + size ≤ length b

-- With the first record complete, the parser's answer is final.
parse_client_hello-append :
    (b c : Bytes) → HasRecord b → parse_client_hello (b ++ c) ≡ parse_client_hello b
unfolding parse_client_hello
parse_client_hello-append b c r =
    let n = r.size in
    let (x, first) = byte_at-done b 0 (omega arith) in
    ground (
      arith,
      length-append b c,
      byte_at-append b c 0,
      u16_at-append b c 3,
      slice-append b c 5 (5 + n) (omega arith) r.content,
    )

-- An answer other than `need_more` needs the first record or a refusal of its header.
parse_client_hello_decided :
    (b c : Bytes)
    → parse_client_hello b ≢ need_more
    → parse_client_hello (b ++ c) ≡ parse_client_hello b
unfolding parse_client_hello
parse_client_hello_decided b c h = elim (Bool-cases (ltb (length b) 5)) [
  | inl short ↦ absurd (h (rw short))
  | inr long ↦
      let (x, first) = byte_at-done b 0 (ground arith) in
      let (n, size) = u16_at-done b 3 (ground arith) in
      ground (
        arith,
        length-append b c,
        byte_at-append b c 0,
        u16_at-append b c 3,
        slice-append b c 5 (5 + n) (omega arith),
      )
]

-- `Feed` on successive reads, up to the first answer: the loop of `handleTLSConn`.
pub feed_all : HelloParser → List Bytes → Fed
feed_all p [] = more
feed_all p (b ∷ bs) =
    let (p', answer) = feed p b in
    elim answer [
      | more ↦ feed_all p' bs
      | hello ch ↦ hello ch
      | not_hello ↦ not_hello
      | crashed ↦ crashed
    ]

pub feed_all-nil : (p : HelloParser) → feed_all p [] ≡ more
unfolding feed_all
feed_all-nil p = refl

pub feed_all-cons :
    (p : HelloParser) (b : Bytes) (bs : List Bytes)
    → feed_all p (b ∷ bs) ≡ elim (feed p b).1 [
      | more ↦ feed_all (feed p b).0 bs
      | hello ch ↦ hello ch
      | not_hello ↦ not_hello
      | crashed ↦ crashed
    ]
unfolding feed_all
feed_all-cons p b bs = refl

unfoldable pub concat : List Bytes → Bytes
concat [] = []
concat (b ∷ bs) = b ++ concat bs

-- The answer to a whole record, as `Feed` gives it.
abbrev pub fed_of : Outcome ClientHello → Fed
fed_of (done ch) = hello ch
fed_of need_more = more
fed_of invalid = not_hello
fed_of panic = crashed
fed_of stuck = crashed

Outcome-cases :
    (r : Outcome ClientHello) → IsSafe r → (r ≡ need_more) ⊎ ((r ≢ need_more) × IsSafe r)
Outcome-cases (done ch) h = inr ((λ e. cc), tt)
Outcome-cases need_more h = inl refl
Outcome-cases invalid h = inr ((λ e. cc), tt)
Outcome-cases panic h = absurd h
Outcome-cases stuck h = absurd h

-- One read that leaves the buffer within its cap.
module _ (p : HelloParser) (b : Bytes) (bs : List Bytes)
    (fits : length p.buf + length b ≤ max_hello_bytes) where
  feed_all_waits :
      parse_client_hello (p.buf ++ b) ≡ need_more
      → feed_all p (b ∷ bs) ≡ feed_all (record { buf = p.buf ++ b }) bs
  unfolding feed_all feed finish_feed
  feed_all_waits e = ground arith

  feed_all_answers :
      parse_client_hello (p.buf ++ b) ≢ need_more
      → feed_all p (b ∷ bs) ≡ fed_of (parse_client_hello (p.buf ++ b))
  unfolding feed_all feed finish_feed
  feed_all_answers e = ground arith

-- Fragments do not matter: if the bytes in the buffer and those of the reads make up `whole`, within
-- the cap, the reads are answered as the parser answers `whole`.
feed_all-parse :
    (bs : List Bytes) (p : HelloParser) (whole : Bytes)
    → p.buf ++ concat bs ≡ whole
    → length whole ≤ max_hello_bytes
    → parse_client_hello p.buf ≡ need_more
    → feed_all p bs ≡ fed_of (parse_client_hello whole)
feed_all-parse [] p whole e h waits =
    let same : p.buf ≡ whole = sym (append-nil p.buf) ∙ unfold concat in e in
    rw (← same) (rw waits (unfold feed_all in refl))
feed_all-parse (b ∷ bs) p whole e h waits =
    let regrouped : (p.buf ++ b) ++ concat bs ≡ whole =
      append_assoc p.buf b (concat bs) ∙ unfold concat in e in
    let size : length (p.buf ++ b) + length (concat bs) ≡ length whole =
      sym (length-append (p.buf ++ b) (concat bs)) ∙ ap length regrouped in
    let fits : length p.buf + length b ≤ max_hello_bytes = omega (arith, length-append p.buf b) in
    elim (Outcome-cases (parse_client_hello (p.buf ++ b)) (parse_client_hello-IsSafe _)) [
      | inl more_needed ↦
          feed_all_waits p b bs fits more_needed
          ∙ feed_all-parse bs (record { buf = p.buf ++ b }) whole regrouped h more_needed
      | inr (decided, _) ↦
          feed_all_answers p b bs fits decided
          ∙ ap fed_of (
              sym (parse_client_hello_decided (p.buf ++ b) (concat bs) decided)
              ∙ ap parse_client_hello regrouped)
    ]

-- TCP fragmentation at any byte boundary: however the bytes of a stream are cut into reads, the
-- parser answers as it answers the whole, if that is within the cap.
pub feed_all_fragments :
    (bs : List Bytes)
    → length (concat bs) ≤ max_hello_bytes
    → feed_all (record { buf = [] }) bs ≡ fed_of (parse_client_hello (concat bs))
feed_all_fragments bs h =
    feed_all-parse bs (record { buf = [] }) (concat bs) refl h (unfold parse_client_hello in refl)

-- Where the first record is complete and the parser still asks for more, as it does for a
-- handshake that is longer than its first record, it asks for more on every longer stream within
-- the cap.
pub split_handshake_waits :
    (b : Bytes) (bs : List Bytes)
    → HasRecord b
    → parse_client_hello b ≡ need_more
    → length (b ++ concat bs) ≤ max_hello_bytes
    → feed_all (record { buf = [] }) (b ∷ bs) ≡ more
split_handshake_waits b bs r waits h =
    feed_all_fragments (b ∷ bs) (unfold concat in h)
    ∙ unfold concat in ap fed_of (parse_client_hello-append b (concat bs) r ∙ waits)
