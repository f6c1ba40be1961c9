-- ===== src/Client/Dns/Query.antt =====
-- internal/client/dns.go: `queryDoH`. `json.Unmarshal` is a parameter: it gives the field `data` of each
-- answer, or an error. A request that cannot be made and one that fails are the same reply.
pub mod Answers
use netsee.Client.Dns.{DohReply, answered, unavailable}
use netsee.Client.Session.{HttpReply, http_failed, http_status, status_ok}
use netsee.Client.Types.{Fallible, failed_with, succeeded}
use netsee.Prelude.{List, [], if◌then◌else◌, not, ◌++◌, ◌==◌, ◌∷◌}
use netsee.Prelude.Text.{Bytes, is_empty, utf8}
use netsee.Prelude.Words.{itoa}

-- `a.Data != ""`
pub without_empty : List Bytes → List Bytes
without_empty [] = []
without_empty (a ∷ answers) =
    let rest = without_empty answers in if is_empty a then rest else a ∷ rest

-- The address of a request.
pub doh_request : Bytes → Bytes → Bytes → Bytes
doh_request doh_url host typ = doh_url ++ (utf8 "?name=" ++ (host ++ (utf8 "&type=" ++ typ)))

full_answers : Fallible (List Bytes) → Fallible (List Bytes)
full_answers (failed_with e) = failed_with e
full_answers (succeeded entries) = succeeded (without_empty entries)

-- The body of the loop, behind the request: what is appended, or the error.
read_answers : (Bytes → Fallible (List Bytes)) → Bytes → HttpReply → Fallible (List Bytes)
read_answers decode typ (http_failed e) = failed_with e
read_answers decode typ (http_status code body) =
    if not (code == status_ok)
    then failed_with (utf8 "DoH " ++ (typ ++ (utf8 " status " ++ itoa code)))
    else full_answers (decode body)

-- The loop over the types of records, onto the answers so far.
doh_loop :
    (Bytes → Fallible (List Bytes))
    → (Bytes → HttpReply)
    → Bytes
    → Bytes
    → List Bytes
    → List Bytes
    → DohReply
doh_loop decode fetch doh_url host [] out = answered out
doh_loop decode fetch doh_url host (typ ∷ types) out =
    elim (read_answers decode typ (fetch (doh_request doh_url host typ))) [
      | failed_with e ↦ unavailable e
      | succeeded next_ones ↦ doh_loop decode fetch doh_url host types (out ++ next_ones)
    ]

pub query_doh : (Bytes → Fallible (List Bytes)) → (Bytes → HttpReply) → Bytes → Bytes → DohReply
query_doh decode fetch doh_url host =
    doh_loop decode fetch doh_url host (utf8 "A" ∷ utf8 "AAAA" ∷ []) []
