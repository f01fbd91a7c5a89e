-- ===== src/Http/HttpSession/Request.antt =====
-- A message that the parser hands over in pieces.
use libcpp.Prelude.{
  ℕ, ◌≡◌, refl, ◌∙◌, sym, ap, Bool, true, false, Option, some, List, [], ◌∷◌, ◌++◌, map, append-nil,
  append_assoc,
}
use libcpp.Prelude.Bytes.{Bytes, concat}
use libcpp.Http.HttpMessage.{HttpMessage, Headers, add_header}
use libcpp.Http.HttpMessage as HttpMessage
use libcpp.Http.HttpMessage.Headers.{add_headers}
use libcpp.Http.HttpSession.{
  Event, message_begin, url, header_field, header_value, headers_complete, body, message_complete,
  HttpSession, HttpCallback, Parser, parsed, add_pending, with_path, on_headers_complete, handle,
  run,
}

-- A header in pieces; the parser hands over at least one of the field and one of the value.
pub record Pieces : Type 0 where
  pub field_first : ℕ
  pub field_start : Bytes
  pub field_rest : List Bytes
  pub value_start : Bytes
  pub value_rest : List Bytes

abbrev pub field : Pieces → Bytes
field h = (h.field_first ∷ h.field_start) ++ concat h.field_rest

abbrev pub value : Pieces → Bytes
value h = h.value_start ++ concat h.value_rest

abbrev pub header_events : List Pieces → List Event → List Event
header_events [] es = es
header_events (h ∷ hs) es =
    header_field (h.field_first ∷ h.field_start)
    ∷ (map header_field h.field_rest
        ++ (header_value h.value_start ∷ (map header_value h.value_rest ++ header_events hs es)))

abbrev pub whole : Pieces → Bytes × Bytes
whole h = (field h, value h)

-- The session with message `m`.
abbrev session : HttpSession → HttpMessage → Bytes → Bytes → Bool → HttpSession
session s m f v b = record s {
  http_message = some m;
  cur_field = f;
  cur_value = v;
  last_is_value = b;
}

module _ (on_headers on_message : Option HttpCallback) (parser : Parser) where
  abbrev pub run' : List Event → HttpSession → Option (ℕ × HttpSession)
  run' = run on_headers on_message parser

  run-url :
      (us : List Bytes) (es : List Event) (s : HttpSession) (m : HttpMessage) (f v : Bytes)
      (b : Bool)
      → run' (map url us ++ es) (session s m f v b)
        ≡ run' es (session s (record m { url = m.url ++ concat us }) f v b)
  unfolding run handle
  run-url [] es s m f v b =
      ap (λ x. run' es (session s (record m { url = x }) f v b)) (sym (append-nil m.url))
  run-url (u ∷ us) es s m f v b =
      run-url us es s (record m { url = m.url ++ u }) f v b
      ∙ ap (λ x. run' es (session s (record m { url = x }) f v b))
          (append_assoc m.url u (concat us))

  run-body :
      (us : List Bytes) (es : List Event) (s : HttpSession) (m : HttpMessage) (f v : Bytes)
      (b : Bool)
      → run' (map body us ++ es) (session s m f v b)
        ≡ run' es (session s (record m { body = m.body ++ concat us }) f v b)
  unfolding run handle
  run-body [] es s m f v b =
      ap (λ x. run' es (session s (record m { body = x }) f v b)) (sym (append-nil m.body))
  run-body (u ∷ us) es s m f v b =
      run-body us es s (record m { body = m.body ++ u }) f v b
      ∙ ap (λ x. run' es (session s (record m { body = x }) f v b))
          (append_assoc m.body u (concat us))

  run-field :
      (fs : List Bytes) (es : List Event) (s : HttpSession) (m : HttpMessage) (f v : Bytes)
      → run' (map header_field fs ++ es) (session s m f v false)
        ≡ run' es (session s m (f ++ concat fs) v false)
  unfolding run handle
  run-field [] es s m f v = ap (λ x. run' es (session s m x v false)) (sym (append-nil f))
  run-field (x ∷ fs) es s m f v =
      run-field fs es s m (f ++ x) v
      ∙ ap (λ y. run' es (session s m y v false)) (append_assoc f x (concat fs))

  run-value :
      (vs : List Bytes) (es : List Event) (s : HttpSession) (m : HttpMessage) (f v : Bytes)
      → run' (map header_value vs ++ es) (session s m f v true)
        ≡ run' es (session s m f (v ++ concat vs) true)
  unfolding run handle
  run-value [] es s m f v = ap (λ x. run' es (session s m f x true)) (sym (append-nil v))
  run-value (x ∷ vs) es s m f v =
      run-value vs es s m f (v ++ x)
      ∙ ap (λ y. run' es (session s m f y true)) (append_assoc v x (concat vs))

  run-header :
      (h : Pieces) (hs : List Pieces) (es : List Event) (s : HttpSession) (m : HttpMessage)
      (f v : Bytes)
      → run' (header_events (h ∷ hs) es) (session s m f v true)
        ≡ run' (header_events hs es) (session s (add_pending f v m) (field h) (value h) true)
  unfolding run handle
  run-header h hs es s m f v =
      run-field h.field_rest _ s (add_pending f v m) (h.field_first ∷ h.field_start) []
      ∙ run-value h.value_rest (header_events hs es) s (add_pending f v m) (field h) h.value_start

  run-headers_complete :
      (k : ℕ) (es : List Event) (s : HttpSession) (m : HttpMessage) (f v : Bytes)
      → run' (headers_complete k ∷ es) (session s m f v true)
        ≡ run' (headers_complete k ∷ es) (session s (add_pending f v m) [] [] true)
  unfolding run handle on_headers_complete
  run-headers_complete k es s m [] v = refl
  run-headers_complete k es s m (x ∷ f) v = refl

  -- All headers, up to the end of them.
  pub run-header_events :
      (hs : List Pieces) (k : ℕ) (es : List Event) (s : HttpSession) (m : HttpMessage) (f v : Bytes)
      → run' (header_events hs (headers_complete k ∷ es)) (session s m f v true)
        ≡ run'
            (headers_complete k ∷ es)
            (session s (add_headers (map whole hs) (add_pending f v m)) [] [] true)
  run-header_events [] k es s m f v = run-headers_complete k es s m f v
  run-header_events (h ∷ hs) k es s m f v =
      run-header h hs (headers_complete k ∷ es) s m f v
      ∙ run-header_events hs k es s (add_pending f v m) (field h) (value h)

pub url-add_headers : (hs : Headers) (m : HttpMessage) → (add_headers hs m).url ≡ m.url
url-add_headers [] m = refl
url-add_headers ((f, v) ∷ hs) m = url-add_headers hs (add_header f v m)

run-callback :
    (on_headers : HttpCallback) (on_message : Option HttpCallback) (parser : Parser)
    (path : Option (ℕ × ℕ)) (k : ℕ) (es : List Event) (s : HttpSession) (m : HttpMessage)
    → ((m : HttpMessage) → on_headers m ≡ (0, m))
    → parser.parse_url m.url ≡ parsed path
    → let m' = with_path path (HttpMessage.set_method parser.method_str k m) in
      run (some on_headers) on_message parser (headers_complete k ∷ es) (session s m [] [] true)
      ≡ run
          (some on_headers)
          on_message
          parser
          es
          (session (record s { heard_headers = s.heard_headers ++ (m' ∷ []) }) m' [] [] true)
unfolding run handle on_headers_complete
run-callback on_headers on_message parser path k es s m quiet accepted =
    rw (accepted, quiet (with_path path (HttpMessage.set_method parser.method_str k m))) refl

-- The calls for a request, with the url `us`, the headers `hs` and the body `bs` in pieces.
abbrev pub request_events : List Bytes → List Pieces → ℕ → List Bytes → List Event
request_events us hs k bs =
    message_begin
    ∷ (map url us
        ++ header_events hs (headers_complete k ∷ (map body bs ++ (message_complete ∷ []))))

-- The request up to its body.
abbrev pub request : Parser → Option (ℕ × ℕ) → List Bytes → List Pieces → ℕ → HttpMessage
request parser path us hs k = with_path path (
    HttpMessage.set_method parser.method_str k
      (add_headers (map whole hs) (HttpMessage.append_url (concat us) HttpMessage.init)))

-- However the parser cuts the url, the fields and the values of the headers, and the body of a request,
-- each call returns 0, and the session ends with the whole message: `onHeadersCallback_` was given the
-- message with its method, url, path and headers, and then `onMessageCallback_` the message with its body.
-- No field is empty, http_parser_parse_url accepts the url, and both callbacks are set, return 0
-- and leave the message as it is.
pub run-request :
    (on_headers on_message : HttpCallback) (parser : Parser) (path : Option (ℕ × ℕ))
    (us : List Bytes) (hs : List Pieces) (k : ℕ) (bs : List Bytes) (s : HttpSession)
    → ((m : HttpMessage) → on_headers m ≡ (0, m))
    → ((m : HttpMessage) → on_message m ≡ (0, m))
    → parser.parse_url (concat us) ≡ parsed path
    → let m = request parser path us hs k in
      run (some on_headers) (some on_message) parser (request_events us hs k bs) s
      ≡ some (
        0,
        record s {
          http_message = some (HttpMessage.append_body (concat bs) m);
          cur_field = [];
          cur_value = [];
          last_is_value = true;
          heard_headers = s.heard_headers ++ (m ∷ []);
          heard_messages = s.heard_messages ++ (HttpMessage.append_body (concat bs) m ∷ []);
        },
      )
unfolding run handle
run-request on_headers on_message parser path us hs k bs s quiet quiet' accepted =
    run-url (some on_headers) (some on_message) parser us _ s HttpMessage.init [] [] true
    ∙ run-header_events (some on_headers) (some on_message) parser hs k _ s
        (HttpMessage.append_url (concat us) HttpMessage.init) [] []
    ∙ run-callback on_headers (some on_message) parser path k
        (map body bs ++ (message_complete ∷ [])) s
        (add_headers (map whole hs) (HttpMessage.append_url (concat us) HttpMessage.init)) quiet
        (ap parser.parse_url (url-add_headers (map whole hs) _) ∙ accepted)
    ∙ run-body (some on_headers) (some on_message) parser bs (message_complete ∷ [])
        (record s { heard_headers = s.heard_headers ++ (request parser path us hs k ∷ []) })
        (request parser path us hs k) [] [] true
    ∙ rw (quiet' (HttpMessage.append_body (concat bs) (request parser path us hs k))) refl
