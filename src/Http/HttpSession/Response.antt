-- ===== src/Http/HttpSession/Response.antt =====
-- What a session makes of a response.
use libcpp.Prelude.{ℕ, ◌≡◌, refl, ◌∙◌, true, Option, some, List, [], ◌∷◌, map}
use libcpp.Prelude.Bytes.{Bytes}
use libcpp.Http.HttpMessage.{HttpMessage}
use libcpp.Http.HttpMessage as HttpMessage
use libcpp.Http.HttpMessage.Headers.{add_headers}
use libcpp.Http.HttpSession.{
  Event, message_begin, status, headers_complete, HttpSession, HttpCallback, Parser, failed,
  on_headers_complete, handle, run,
}
use libcpp.Http.HttpSession.Request.{
  Pieces, header_events, whole, url-add_headers, run-header_events,
}

-- The calls for a response, up to the end of its headers.
abbrev pub response_events : ℕ → Bytes → List Pieces → List Event
response_events code text hs =
    message_begin ∷ status code text ∷ header_events hs (headers_complete 0 ∷ [])

-- If http_parser_parse_url refuses the empty url with 1, the headers of a response, cut in any way, are
-- kept, but `onHeadersCallback_` is not called: a response has no url. The parser gets the 1 as the result
-- of its last call, whether or not the callbacks are set.
pub run-response :
    (on_headers on_message : Option HttpCallback) (parser : Parser) (code : ℕ) (text : Bytes)
    (hs : List Pieces) (s : HttpSession)
    → parser.parse_url [] ≡ failed 1
    → run on_headers on_message parser (response_events code text hs) s
      ≡ some (
        1,
        record s {
          http_message = some (
              HttpMessage.set_method parser.method_str 0 (
                add_headers
                  (map whole hs)
                  (HttpMessage.set_status parser.status_str code HttpMessage.init)));
          cur_field = [];
          cur_value = [];
          last_is_value = true;
        },
      )
unfolding run handle on_headers_complete
run-response on_headers on_message parser code text hs s refused =
    run-header_events on_headers on_message parser hs 0 [] s
      (HttpMessage.set_status parser.status_str code HttpMessage.init) [] []
    ∙ rw
        (
          url-add_headers (map whole hs)
              (HttpMessage.set_status parser.status_str code HttpMessage.init),
          refused,
        )
        refl
