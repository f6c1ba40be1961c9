-- ===== src/Client/Dns/Tests.antt =====
-- The comparison at concrete answers.
use mathlib.Core.List.{Perm}
use netsee.Client.Attribution.{ParseAddr, detect_fake_ip_answer, is_fake_ip}
use netsee.Client.Dns.{
  DnsResult, answered, judge_dns, judged_suspect, run_dns, sets_equal, with_doh,
}
use netsee.Client.Dns.Judgment.{run_dns_suspect_iff}
use netsee.Client.Dns.Sets.{IsPlain, IsReal}
use netsee.Client.Session.{HttpReply, http_status}
use netsee.Client.Types.{Fallible, succeeded}
use netsee.Prelude.{All, List, [], arith, false, none, refl, some, ◌↔◌, ◌∷◌, ◌≡◌}
use netsee.Prelude.Sort.{insert_string, sort_strings}
use netsee.Prelude.Text.{Bytes, bytes_beq, join, utf8}

abbrev no_address : ParseAddr
no_address text = none

abbrev here : Bytes
here = utf8 "192.0.2.1"

abbrev there : Bytes
there = utf8 "192.0.2.2"

abbrev suspected : DnsResult
suspected = record {
  host = utf8 "example.com";
  system_answers = here ∷ [];
  doh_answers = there ∷ [];
  doh_status = utf8 "ok";
  same = false;
  fake_ip_detected = false;
  judgment = judged_suspect;
  premise = utf8 "CDN 地域解析也会导致系统与 DoH 结果差异；已列出双方原始答案";
}

run_suspected :
    run_dns no_address
      (utf8 "example.com")
      (utf8 "https://dns")
      (some (here ∷ []))
      (answered (there ∷ []))
    ≡ some suspected
unfolding run_dns with_doh judge_dns sets_equal sort_strings insert_string join bytes_beq utf8
    detect_fake_ip_answer is_fake_ip
run_suspected = refl

here-IsPlain : IsPlain here
unfolding utf8
here-IsPlain = ground arith

there-IsPlain : IsPlain there
unfolding utf8
there-IsPlain = ground arith

run_dns_suspect_iff_example : (judged_suspect ≡ judged_suspect) ↔ (
    (false ≡ false)
    × (answered (there ∷ []) ≡ answered (there ∷ []))
    × ((here ∷ []) ≡ (here ∷ []))
    × ¬ Perm (here ∷ []) (there ∷ [])
    × All (IsReal no_address) (here ∷ []))
unfolding utf8
run_dns_suspect_iff_example =
    run_dns_suspect_iff no_address (utf8 "example.com") (utf8 "https://dns") (here ∷ [])
      (answered (there ∷ [])) suspected run_suspected (here-IsPlain, tt) (there-IsPlain, tt)

-- A resolver that answers one address to a request, and an empty one beside it.
abbrev one_answer : Bytes → Fallible (List Bytes)
one_answer body = succeeded (there ∷ [] ∷ [])

abbrev replies : Bytes → HttpReply
replies url = http_status 200 []
