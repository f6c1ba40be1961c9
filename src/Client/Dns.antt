-- ===== src/Client/Dns.antt =====
-- internal/client/dns.go: the system's answers against those of DoH.
pub mod Sets
pub mod Judgment
pub mod Query
mod Tests
use netsee.Client.Attribution.{ParseAddr, detect_fake_ip_answer}
use netsee.Prelude.{Bool, List, Option, [], false, if◌then◌else◌, none, not, some, ◌++◌}
use netsee.Prelude.Sort.{sort_strings}
use netsee.Prelude.Text.{Bytes, bytes_beq, is_empty, join, utf8}

pub record DnsResult : Type 0 where
  pub host : Bytes
  pub system_answers : List Bytes
  pub doh_answers : List Bytes
  pub doh_status : Bytes
  pub same : Bool
  pub fake_ip_detected : Bool
  pub judgment : Bytes
  pub premise : Bytes

abbrev pub judged_fake : Bytes
judged_fake = utf8 "DNS 被代理接管（fake-ip）"

abbrev pub judged_unusable : Bytes
judged_unusable = utf8 "仅系统解析（DoH 不可用，无法对比）"

abbrev pub judged_same : Bytes
judged_same = utf8 "一致（未检测到劫持）"

abbrev pub judged_suspect : Bytes
judged_suspect = utf8 "疑似分流/劫持（低置信度）"

pub judge_dns : DnsResult → DnsResult
judge_dns res =
    if res.fake_ip_detected
    then record res { judgment = judged_fake }
    else if not (bytes_beq res.doh_status (utf8 "ok"))
    then record res { judgment = judged_unusable }
    else if res.same
    then record res { judgment = judged_same }
    else record res {
      judgment = judged_suspect;
      premise = utf8 "CDN 地域解析也会导致系统与 DoH 结果差异；已列出双方原始答案";
    }

-- `setsEqual`: `sortedCopy` on both sides, joined by commas.
pub sets_equal : List Bytes → List Bytes → Bool
sets_equal a b = bytes_beq (join (utf8 ",") (sort_strings a)) (join (utf8 ",") (sort_strings b))

-- What `queryDoH` gives: the answers, or the text of an error.
pub data DohReply : Type 0 where
  answered : List Bytes → DohReply
  unavailable : Bytes → DohReply

-- The part of `RunDNS` that asks DoH, if an address is given.
with_doh : Bool → DohReply → DnsResult → DnsResult
with_doh no_url reply res =
    if no_url then record res { doh_status = utf8 "skipped" } else elim reply [
      | unavailable why ↦ record res {
        doh_status = utf8 "unavailable";
        premise = utf8 "DoH 查询失败: " ++ why;
      }
      | answered answers ↦ record res { doh_answers = answers; doh_status = utf8 "ok" }
    ]

-- `RunDNS`: none where the system resolver fails.
pub run_dns : ParseAddr → Bytes → Bytes → Option (List Bytes) → DohReply → Option DnsResult
unfolding with_doh
run_dns parse_addr host doh_url resolved reply = elim resolved [
  | none ↦ none
  | some answers ↦
      let asked = with_doh (is_empty doh_url) reply (record {
        host = host;
        system_answers = answers;
        doh_answers = [];
        doh_status = [];
        same = false;
        fake_ip_detected = detect_fake_ip_answer parse_addr answers;
        judgment = [];
        premise = [];
      }) in
      some (judge_dns (record asked { same = sets_equal asked.system_answers asked.doh_answers }))
]
