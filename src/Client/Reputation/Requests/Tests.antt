-- ===== src/Client/Reputation/Requests/Tests.antt =====
-- A lookup whose replies are errors.
use netsee.Client.Reputation.{InfoReply, by_info, fall_back, query_ip_info, query_reputation}
use netsee.Client.Reputation.Requests.{api_answer, info_answer, look_up}
use netsee.Client.Session.{HttpReply, http_status}
use netsee.Client.Types.{failed_with}
use netsee.Prelude.{[], refl, some, ◌≡◌}
use netsee.Prelude.Text.{Bytes, utf8}

-- ipinfo refuses with the status 403 and a JSON body that has none of the fields.
abbrev refused_reply : Bytes × Bytes → Bytes → HttpReply
refused_reply header url = http_status 403 (utf8 "{}")

abbrev empty_info : InfoReply
empty_info = record { ip = []; country = []; region = []; city = []; org = [] }

look_up_refused :
    (look_up
      (λ body. failed_with (utf8 "no JSON"))
      (λ body. some empty_info)
      (λ url. http_status 404 [])
      refused_reply
      (utf8 "192.0.2.1")
      (utf8 "token")
      (utf8 "http://ip-api.com/json")).source
    ≡ by_info
unfolding look_up api_answer info_answer query_reputation fall_back query_ip_info utf8
look_up_refused = refl
