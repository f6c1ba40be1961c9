-- ===== src/Client/Reputation/Tests.antt =====
-- A lookup that ip-api does not answer.
use netsee.Client.Reputation.{ApiAnswer, InfoReply, api_failed}
use netsee.Prelude.{[]}
use netsee.Prelude.Text.{utf8}

abbrev from_info : InfoReply
from_info = record {
  ip = utf8 "192.0.2.1";
  country = utf8 "NL";
  region = [];
  city = [];
  org = utf8 "AS64500";
}

abbrev refused_query : ApiAnswer
refused_query = api_failed (utf8 "timeout")
