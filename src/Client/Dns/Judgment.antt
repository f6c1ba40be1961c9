-- ===== src/Client/Dns/Judgment.antt =====
-- When a hijack is suspected.
use mathlib.Core.List.{Perm}
use netsee.Client.Attribution.{ParseAddr, detect_fake_ip_answer}
use netsee.Client.Dns.{
  DnsResult, DohReply, answered, judge_dns, judged_fake, judged_same, judged_suspect,
  judged_unusable, run_dns, sets_equal, unavailable, with_doh,
}
use netsee.Client.Dns.Sets.{IsPlain, IsReal, detect_fake_ip_answer-IsReal, not_same, sets_equal_iff}
use netsee.Prelude.{All, List, arith, false, refl, some, true, ◌↔◌, ◌≡◌, ◌≢◌}
use netsee.Prelude.Text.{Bytes, bytes_beq, bytes_ne, is_empty, utf8}

judgments_differ :
    (judged_fake ≢ judged_suspect)
    × (judged_unusable ≢ judged_suspect)
    × (judged_same ≢ judged_suspect)
    × (bytes_beq (utf8 "skipped") (utf8 "ok") ≡ false)
    × (bytes_beq (utf8 "unavailable") (utf8 "ok") ≡ false)
    × (bytes_beq (utf8 "ok") (utf8 "ok") ≡ true)
unfolding utf8 bytes_beq
judgments_differ = (bytes_ne _ _ refl, bytes_ne _ _ refl, bytes_ne _ _ refl, refl, refl, refl)

-- The same by the tests of the code.
run_dns_suspect :
    (parse_addr : ParseAddr) (host doh_url : Bytes) (system : List Bytes) (reply : DohReply)
    (res : DnsResult)
    → run_dns parse_addr host doh_url (some system) reply ≡ some res
    → (res.judgment ≡ judged_suspect) ↔ (
        (is_empty doh_url ≡ false)
        × (reply ≡ answered res.doh_answers)
        × (res.system_answers ≡ system)
        × (sets_equal system res.doh_answers ≡ false)
        × (detect_fake_ip_answer parse_addr system ≡ false))
unfolding run_dns with_doh judge_dns
run_dns_suspect parse_addr host doh_url system (unavailable why) res h =
    let (a, b, c, d, e, f) = judgments_differ in ((λ s. ground arith), (λ s. ground arith))
run_dns_suspect parse_addr host doh_url system (answered answers) res h =
    let (a, b, c, d, e, f) = judgments_differ in ((λ s. ground arith), (λ s. ground arith))

-- Where no answer is empty or has a comma, a hijack is suspected exactly when DoH was asked and
-- answered, the answers are no rearrangement of the system's, and none of the system's is an address
-- of 198.18.0.0/15; the answers that it rests on are reported.
pub run_dns_suspect_iff :
    (parse_addr : ParseAddr) (host doh_url : Bytes) (system : List Bytes) (reply : DohReply)
    (res : DnsResult)
    → run_dns parse_addr host doh_url (some system) reply ≡ some res
    → All IsPlain system
    → All IsPlain res.doh_answers
    → (res.judgment ≡ judged_suspect) ↔ (
        (is_empty doh_url ≡ false)
        × (reply ≡ answered res.doh_answers)
        × (res.system_answers ≡ system)
        × ¬ Perm system res.doh_answers
        × All (IsReal parse_addr) system)
run_dns_suspect_iff parse_addr host doh_url system reply res h ours theirs =
    let (forth, back) = run_dns_suspect parse_addr host doh_url system reply res h in
    let same = sets_equal_iff system res.doh_answers ours theirs in
    let real = detect_fake_ip_answer-IsReal parse_addr system in
    (
      λ s.
          let (asked, from, told, differ, no_fake) = forth s in
          (asked, from, told, (λ p. let eq = same.1 p in cc), real.0 no_fake),
      λ c.
          let (asked, from, told, differ, no_fake) = c in
          back (asked, from, told, not_same _ (λ e. differ (same.0 e)), real.1 no_fake),
    )
