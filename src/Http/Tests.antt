-- ===== src/Http/Tests.antt =====
-- A request for /a?b with two headers, in pieces; and a response.
use libcpp.Prelude.{◌≡◌, refl, true, some, List, [], ◌∷◌, ◌++◌}
use libcpp.Prelude.Bytes.{Bytes, codes, bytes_eq, bytes_lt}
use libcpp.Http.HttpMessage.{
  HttpMessage, get_value_by_header, value_or_empty, get_request_as_string,
}
use libcpp.Prelude.Dicts.{set}
use libcpp.Http.HttpMessage as HttpMessage
use libcpp.Http.HttpSession.{
  HttpSession, http_request, HttpCallback, Parser, Parsed, parsed, failed, run, message_begin, url,
}
use libcpp.Http.HttpSession as HttpSession
use libcpp.Http.HttpSession.Request.{Pieces, request, request_events, run-request}

-- A parser that takes the two bytes of the url for its path, and refuses the empty url.
abbrev parse_url : Bytes → Parsed
parse_url [] = failed 1
parse_url (x ∷ xs) = parsed (some (0, 2))

abbrev parser : Parser
parser = record {
  method_str = λ k. codes "GET";
  status_str = λ k. codes "OK";
  parse_url = parse_url;
}

abbrev quiet : HttpCallback
quiet m = (0, m)

abbrev urls : List Bytes
urls = codes "/" ∷ codes "a?b" ∷ []

abbrev header : Pieces
header = record {
  field_first = b'H';
  field_start = codes "o";
  field_rest = codes "st" ∷ [];
  value_start = codes "x";
  value_rest = [];
}

run-request_example :
    let m = request parser (some (0, 2)) urls (header ∷ header ∷ []) 1 in
    run
      (some quiet)
      (some quiet)
      parser
      (request_events urls (header ∷ header ∷ []) 1 (codes "hi" ∷ []))
      (HttpSession.init http_request [] true)
    ≡ some (
      0,
      record (HttpSession.init http_request [] true) {
        http_message = some (HttpMessage.append_body (codes "hi") m);
        heard_headers = m ∷ [];
        heard_messages = HttpMessage.append_body (codes "hi") m ∷ [];
      },
    )
run-request_example =
    run-request quiet quiet parser (some (0, 2)) urls (header ∷ header ∷ []) 1 (codes "hi" ∷ [])
      (HttpSession.init http_request [] true) (λ m. refl) (λ m. refl) refl

request_text :
    get_request_as_string (request parser (some (0, 2)) urls (header ∷ header ∷ []) 1)
    ≡ codes "GET /a?b HTTP/1.1" ++ (13 ∷ 10 ∷ []) ++ codes "Host: x" ++ (13 ∷ 10 ∷ 13 ∷ 10 ∷ [])
unfolding get_request_as_string set bytes_lt bytes_eq
request_text = refl
