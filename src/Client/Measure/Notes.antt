-- ===== src/Client/Measure/Notes.antt =====
-- The notes on the steps that failed.
use netsee.Client.Measure.{before_pull, context_note, pull_error, warn}
use netsee.Client.Result.{Measurement}
use netsee.Client.Session.{ProbeSession, http_echo, pull, pull_failed, tls_sniff}
use netsee.Client.World.{Libraries, Meets}
use netsee.Prelude.{In, Option, length, none, some, ℕ, ◌+◌, ◌≡◌}
use netsee.Prelude.Text.{Bytes, utf8}

abbrev missing : {A : Type 0} → Option A → ℕ
missing none = 1
missing (some a) = 0

abbrev present : {A : Type 0} → Option A → ℕ
present none = 0
present (some a) = 1

-- Each step that gave nothing has its note, and there is no other but the one on the context.
pub record IsAccounted (lib : Libraries) (w : Meets) (sess : ProbeSession) (m : Measurement)
    : Type 0 where
  pub context : In context_note m.notes
  pub no_echo :
      (e : Bytes) → http_echo w.echo_reply ≡ some e → In (warn (utf8 "HTTP echo") e) m.notes
  pub no_sniff :
      (e : Bytes) → tls_sniff w.tls_dial w.handshake ≡ some e → In (warn (utf8 "TLS 嗅探") e) m.notes
  pub no_nat : m.nat ≡ none → In (warn (utf8 "NAT 测试") w.nat_error) m.notes
  pub no_pmtu : m.pmtu ≡ none → In (warn (utf8 "PMTU") w.pmtu_error) m.notes
  pub no_dns : m.dns ≡ none → In (warn (utf8 "DNS") w.dns_error) m.notes
  pub no_pull :
      (e : Bytes)
      → pull lib.decode_obs sess.id w.pull_start (w.polls before_pull) ≡ pull_failed e
      → In (warn (utf8 "拉取观测") e) m.notes
  pub no_more :
      length m.notes
      ≡ 1
        + present (http_echo w.echo_reply)
        + present (tls_sniff w.tls_dial w.handshake)
        + missing m.nat
        + missing m.pmtu
        + missing m.dns
        + present (pull_error (pull lib.decode_obs sess.id w.pull_start (w.polls before_pull)))
