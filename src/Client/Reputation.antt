-- ===== src/Client/Reputation.antt =====
-- internal/client/reputation.go: what is known of the exit IP, from the decoded replies to the two
-- queries or the text of the error.
pub mod Lookup
pub mod Requests
mod Tests
use netsee.Client.Types.{ReputationResult}
use netsee.Prelude.{Bool, Option, [], false, if◌then◌else◌, none, not, some, ◌++◌}
use netsee.Prelude.Text.{Bytes, bytes_beq, is_empty, utf8}

-- The reply of ip-api.
pub record ApiReply : Type 0 where
  pub status : Bytes
  pub message : Bytes
  pub country : Bytes
  pub region : Bytes
  pub city : Bytes
  pub isp : Bytes
  pub org : Bytes
  pub as_number : Bytes
  pub proxy : Bool
  pub hosting : Bool

-- The reply of ipinfo. The decoder leaves a field empty that the reply does not have.
pub record InfoReply : Type 0 where
  pub ip : Bytes
  pub country : Bytes
  pub region : Bytes
  pub city : Bytes
  pub org : Bytes

pub data ApiAnswer : Type 0 where
  api_failed : Bytes → ApiAnswer
  api_replied : ApiReply → ApiAnswer

abbrev pub by_api : Bytes
by_api = utf8 "ip-api"

abbrev pub by_info : Bytes
by_info = utf8 "ipinfo"

abbrev pub by_none : Bytes
by_none = utf8 "unavailable"

abbrev pub api_success : Bytes
api_success = utf8 "success"

-- `&ReputationResult{IP: ip, Source: "unavailable", Note: note}`
pub no_reputation : Bytes → Bytes → ReputationResult
no_reputation ip note = record {
  ip = ip;
  country = [];
  region = [];
  city = [];
  isp = [];
  org = [];
  as_number = [];
  proxy = false;
  hosting = false;
  source = by_none;
  note = note;
}

-- `queryIPAPI` behind the decoder.
pub query_ip_api : Bytes → ApiReply → ReputationResult
query_ip_api ip d =
    let msg = if is_empty d.message then utf8 "ip-api 拒绝该地址（可能是私网/保留地址）" else d.message in
    if not (bytes_beq d.status api_success)
    then no_reputation ip (utf8 "ip-api: " ++ msg)
    else record {
      ip = ip;
      country = d.country;
      region = d.region;
      city = d.city;
      isp = d.isp;
      org = d.org;
      as_number = d.as_number;
      proxy = d.proxy;
      hosting = d.hosting;
      source = by_api;
      note = [];
    }

-- `queryIPInfo` behind the decoder.
pub query_ip_info : InfoReply → ReputationResult
query_ip_info d = record {
  ip = d.ip;
  country = d.country;
  region = d.region;
  city = d.city;
  isp = [];
  org = d.org;
  as_number = [];
  proxy = false;
  hosting = false;
  source = by_info;
  note = [];
}

-- The second part of `QueryReputation`, where ip-api failed; `none` is a query of ipinfo that failed.
pub fall_back : Bytes → Bytes → Bytes → Option InfoReply → ReputationResult
fall_back ip token err info =
    let failed = no_reputation ip (utf8 "ip-api 查询失败" ++ (utf8 ": " ++ err)) in
    if not (is_empty token) then elim info [ none ↦ failed | some d ↦ query_ip_info d ] else failed

pub query_reputation : Bytes → Bytes → ApiAnswer → Option InfoReply → ReputationResult
query_reputation ip token (api_replied d) info = query_ip_api ip d
query_reputation ip token (api_failed err) info = fall_back ip token err info
