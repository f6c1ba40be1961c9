-- ===== src/Probe/Mux/Tests.antt =====
-- The mux on concrete requests.
use netsee.Prelude.{refl, ◌++◌, ◌↔◌, ◌≡◌}
use netsee.Prelude.Text.{Bytes, bytes_beq, join, utf8}
use netsee.Prelude.Words.{split, split_from}
use netsee.Probe.Mux.{
  any_endpoint, by_endpoint, dispatch, endpoint_of, first_match, get_endpoint, handled, moved,
  or_else, path_value, reads_only, to_echo, to_session,
}
use netsee.Probe.Mux.Exact.{dispatch-IsRouted_iff}
use netsee.Probe.Mux.Routed.{IsRouted}
use netsee.Probe.Paths.{
  before_slash, clean_path, drop_last, ends_in_slash, first_segment, from_slash, hex_pair,
  kept_elements, match_segments, path_unescape, unescape_from, unhex, with_byte,
}
use netsee.Probe.Server.Samples.{session_id}
use netsee.Proto.SessionId.{is_hex}

-- A percent sign in a literal of the path.
abbrev spelled_path : Bytes
spelled_path = utf8 "/%61pi/session/" ++ session_id

dispatch_spelled :
    dispatch (utf8 "HEAD") spelled_path spelled_path ≡ handled (to_session session_id)
unfolding dispatch reads_only endpoint_of get_endpoint first_match path_value or_else by_endpoint
    any_endpoint match_segments first_segment path_unescape unescape_from with_byte hex_pair unhex
    before_slash from_slash clean_path kept_elements ends_in_slash split split_from join bytes_beq
    utf8 is_hex
dispatch_spelled = refl

dispatch_post : dispatch (utf8 "POST") (utf8 "/api/info") (utf8 "/api/info") ≡ handled to_echo
unfolding dispatch reads_only endpoint_of get_endpoint first_match path_value or_else by_endpoint
    any_endpoint match_segments first_segment path_unescape unescape_from with_byte hex_pair unhex
    before_slash from_slash clean_path kept_elements ends_in_slash split split_from join bytes_beq
    utf8 is_hex
dispatch_post = refl

dispatch_unclean :
    dispatch (utf8 "GET") (utf8 "/a/../echo//") (utf8 "/a/../echo//") ≡ moved (utf8 "/echo/")
unfolding dispatch reads_only endpoint_of get_endpoint first_match path_value or_else by_endpoint
    any_endpoint match_segments first_segment path_unescape unescape_from with_byte hex_pair unhex
    before_slash from_slash clean_path kept_elements drop_last ends_in_slash split split_from join
    bytes_beq utf8 is_hex
dispatch_unclean = refl

dispatch-IsRouted_iff_example :
    (dispatch (utf8 "HEAD") spelled_path spelled_path ≡ handled (to_session session_id))
    ↔ IsRouted (utf8 "HEAD") spelled_path spelled_path (handled (to_session session_id))
dispatch-IsRouted_iff_example =
    dispatch-IsRouted_iff (utf8 "HEAD") spelled_path spelled_path (handled (to_session session_id))
