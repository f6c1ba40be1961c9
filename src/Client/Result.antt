-- ===== src/Client/Result.antt =====
-- internal/client/result.go: the complete result of a measurement.
use netsee.Client.Attribution.{Attribution}
use netsee.Client.Dns.{DnsResult}
use netsee.Client.Nat.{NatResult}
use netsee.Client.Pmtu.{PmtuResult}
use netsee.Client.Types.{LocalInfo, Observation, PortCheck, ProbeInfo, ReputationResult}
use netsee.Prelude.{List, Option}
use netsee.Prelude.Int.{ℤ}
use netsee.Prelude.Text.{Bytes}

pub record Note : Type 0 where
  pub level : Bytes
  pub text : Bytes

pub record ProbeResult : Type 0 where
  pub probe_url : Bytes
  pub protocol_ver : Bytes
  pub info : Option ProbeInfo
  pub observations : List Observation
  pub exit_ips : List Bytes
  pub connectivity : List PortCheck

-- The fields of `Result` but for `Direct`. `started` and `duration` are in nanoseconds.
pub record Measurement : Type 0 where
  pub session : Bytes
  pub started : ℤ
  pub duration : ℤ
  pub local : LocalInfo
  pub attribution : Attribution
  pub public_ips : List Bytes
  pub probe : ProbeResult
  pub nat : Option NatResult
  pub pmtu : Option PmtuResult
  pub dns : Option DnsResult
  pub reputation : Option ReputationResult
  pub notes : List Note

-- `Result`: with no `Direct`, or with the result of the direct measurement.
pub data Result : Type 0 where
  alone : Measurement → Result
  with_direct : Measurement → Result → Result
