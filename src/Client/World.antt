-- ===== src/Client/World.antt =====
-- internal/client/run.go: the configuration of `Run`, and what a run meets of the libraries, the
-- network, the operating system and the clock.
use netsee.Client.Attribution.{ParseAddr}
use netsee.Client.Local.{LocalSystem, Platform}
use netsee.Client.Nat.{Attempts}
use netsee.Client.Pmtu.{PmtuNet}
use netsee.Client.Reputation.{ApiReply, InfoReply}
use netsee.Client.Session.{HttpReply, Poll}
use netsee.Client.Types.{Fallible, ProbeInfo}
use netsee.Prelude.{Bool, List, Option, if◌then◌else◌, ℕ}
use netsee.Prelude.Int.{pos, ℤ}
use netsee.Prelude.Text.{Bytes, is_empty, utf8}
use netsee.Probe.Server.{is_zero}
use netsee.Proto.Types.{Obs}

-- `Config`; the timeout in nanoseconds.
pub record RunConfig : Type 0 where
  pub probe_url : Bytes
  pub timeout : ℤ
  pub doh_url : Bytes
  pub dns_host : Bytes
  pub ipinfo_token : Bytes
  pub ip_api_base : Bytes
  pub direct : Bool

unfoldable pub normalize : RunConfig → RunConfig
normalize c = record c {
  probe_url = if is_empty c.probe_url then utf8 "http://127.0.0.1:8080" else c.probe_url;
  timeout = if is_zero c.timeout then pos 15_000_000_000 else c.timeout;
  dns_host = if is_empty c.dns_host then utf8 "example.com" else c.dns_host;
  ip_api_base = if is_empty c.ip_api_base then utf8 "http://ip-api.com/json" else c.ip_api_base;
}

-- What the libraries do, for every run alike.
pub record Libraries : Type 0 where
  pub parse_addr : ParseAddr
  pub parse_url : Bytes → Option Bytes
  pub parse_ip : Bytes → Option Bool
  pub quote : Bytes → Bytes
  pub decode_info : Bytes → Fallible ProbeInfo
  pub decode_obs : Bytes → Fallible (List Obs)
  pub decode_answers : Bytes → Fallible (List Bytes)
  pub decode_api : Bytes → Fallible ApiReply
  pub decode_ipinfo : Bytes → Option InfoReply

-- The steps of `Run` that reach the probe, of the session's discovery on.
pub data Contact : Type 0 where
  did_echo : Contact
  did_sniff : Contact
  did_nat : Contact
  did_pmtu : Contact
  did_pull : Contact
  did_reach : ℕ → Contact

-- What one run meets, in the order of its steps. The replies to `Pull` and the tests of the extra
-- ports go by the steps that came before them. An error's text stands beside the models of `RunNAT`,
-- `RunPMTU` and `RunDNS`, which tell only whether there is an error.
pub record Meets : Type 0 where
  pub fresh_id : Bytes
  pub info_reply : HttpReply
  pub started : ℤ
  pub platform : Platform
  pub echo_reply : HttpReply
  pub tls_dial : Option Bytes
  pub handshake : Option Bytes
  pub local_ip : Bytes
  pub attempts : Attempts
  pub nat_error : Bytes
  pub pmtu_net : PmtuNet
  pub pmtu_error : Bytes
  pub resolved : Option (List Bytes)
  pub doh_fetch : Bytes → HttpReply
  pub dns_error : Bytes
  pub pull_start : ℕ
  pub polls : List Contact → ℕ → Poll
  pub reach_dial : List Contact → ℕ → Option Bytes
  pub reach_write : List Contact → ℕ → Option Bytes
  pub api_get : Bytes → HttpReply
  pub ipinfo_get : Bytes × Bytes → Bytes → HttpReply
  pub duration : ℤ
  pub system : LocalSystem
  pub route_error : Bytes
  pub add_error : Option Bytes
  pub del_works : Bool
