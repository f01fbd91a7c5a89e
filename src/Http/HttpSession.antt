-- ===== src/Http/HttpSession.antt =====
-- src/http/HttpSession.h and src/http/HttpSession.cc. What the parser calls, with its fields that the
-- session reads there, is an `Event`; the functions of http_parser.c that the session calls are
-- parameters. `none` is an access through a null pointer.
pub mod Request
pub mod Response
use libcpp.Prelude.{
  ℕ, zero, suc, ◌-◌, Bool, ◌&&◌, not, true, false, not, Option, none, some, List, [], ◌∷◌, ◌++◌,
  ◌>>=◌, if◌then◌else◌, ◌==◌, take, drop,
}
use libcpp.Prelude.Bytes.{Bytes}
use libcpp.Http.HttpMessage.{
  HttpMessage, append_url, append_body, add_header, set_path, set_method, set_status,
}
use libcpp.Http.HttpMessage as HttpMessage

-- A call of the parser; with a status comes its code, with the end of the headers the method.
pub data Event : Type 0 where
  message_begin : Event
  url : Bytes → Event
  status : ℕ → Bytes → Event
  header_field : Bytes → Event
  header_value : Bytes → Event
  headers_complete : ℕ → Event
  body : Bytes → Event
  message_complete : Event
  chunk_header : Event
  chunk_complete : Event

-- `enum http_parser_type`.
pub data ParserType : Type 0 where
  http_request http_response http_both : ParserType

-- `parser` are the bytes of the struct that http_parser.c keeps. With the messages that the two callbacks
-- of the user were given, as they were then.
pub record HttpSession : Type 0 where
  pub parser_type : ParserType
  pub parser : Bytes
  pub http_message : Option HttpMessage
  pub cur_field : Bytes
  pub cur_value : Bytes
  pub last_is_value : Bool
  pub heard_headers : List HttpMessage
  pub heard_messages : List HttpMessage

-- A callback of the user: what it returns, and the message as it leaves it.
abbrev pub HttpCallback : Type 0
HttpCallback = HttpMessage → ℕ × HttpMessage

-- The functions of http_parser.c. `parse_url` gives the offset and the length of the path, if there is
-- one, or else what it returned.
pub data Parsed : Type 0 where
  parsed : Option (ℕ × ℕ) → Parsed
  failed : ℕ → Parsed

pub record Parser : Type 0 where
  pub method_str : ℕ → Bytes
  pub status_str : ℕ → Bytes
  pub parse_url : Bytes → Parsed

-- The session as it is made, with what `http_parser_init` makes of the struct. `lastIsValue_` is not
-- initialized: it is an argument.
abbrev pub init : ParserType → Bytes → Bool → HttpSession
init parser_type parser last_is_value = record {
  parser_type = parser_type;
  parser = parser;
  http_message = none;
  cur_field = [];
  cur_value = [];
  last_is_value = last_is_value;
  heard_headers = [];
  heard_messages = [];
}

abbrev pub is_empty : Bytes → Bool
is_empty [] = true
is_empty (x ∷ xs) = false

-- `if (!curField_.empty()) httpMessage_->addHeader(curField_, curValue_);`
abbrev pub add_pending : Bytes → Bytes → HttpMessage → HttpMessage
add_pending field value m = if is_empty field then m else add_header field value m

abbrev pub on_message_begin : HttpSession → HttpSession
on_message_begin s = record s {
  cur_field = [];
  cur_value = [];
  last_is_value = true;
  http_message = some HttpMessage.init;
}

-- Both callbacks that hear of headers, when the last one was complete.
abbrev pub flush_header : HttpMessage → HttpSession → HttpSession
flush_header m s =
    if s.last_is_value
    then record s {
      cur_field = [];
      cur_value = [];
      http_message = some (add_pending s.cur_field s.cur_value m);
    }
    else record s { http_message = some m }

abbrev pub on_header_field : Bytes → HttpMessage → HttpSession → HttpSession
on_header_field at m s =
    let s' = flush_header m s in record s' { cur_field = s'.cur_field ++ at; last_is_value = false }

-- Without a message there is no header to add.
abbrev pub bare_header_field : Bytes → HttpSession → HttpSession
bare_header_field at s =
    if s.last_is_value
    then record s { cur_field = at; cur_value = []; last_is_value = false }
    else record s { cur_field = s.cur_field ++ at; last_is_value = false }

abbrev pub on_header_value : Bytes → HttpSession → HttpSession
on_header_value at s = record s { cur_value = s.cur_value ++ at; last_is_value = true }

abbrev pub with_path : Option (ℕ × ℕ) → HttpMessage → HttpMessage
with_path none m = m
with_path (some (off, len)) m = set_path (take len (drop off m.url)) m

abbrev pub call_headers : Option HttpCallback → HttpMessage → HttpSession → ℕ × HttpSession
call_headers none m s = (0, record s { http_message = some m })
call_headers (some f) m s =
    let (ret, m') = f m in
    (ret, record s { http_message = some m'; heard_headers = s.heard_headers ++ (m ∷ []) })

abbrev pub call_message : Option HttpCallback → HttpMessage → HttpSession → ℕ × HttpSession
call_message none m s = (0, record s { http_message = some m })
call_message (some f) m s =
    let (ret, m') = f m in
    (ret, record s { http_message = some m'; heard_messages = s.heard_messages ++ (m ∷ []) })

module _ (on_headers on_message : Option HttpCallback) where
  module _ (parser : Parser) where
    abbrev pub after_url : Parsed → HttpMessage → HttpSession → ℕ × HttpSession
    after_url (failed ret) m s = (ret, s)
    after_url (parsed path) m s = call_headers on_headers (with_path path m) s

    abbrev pub parse_path : HttpMessage → HttpSession → ℕ × HttpSession
    parse_path m s = after_url (parser.parse_url m.url) m s

    unfoldable pub on_headers_complete : ℕ → HttpMessage → HttpSession → Option (ℕ × HttpSession)
    on_headers_complete method m s = do
      let s' = flush_header (set_method parser.method_str method m) s
      m' ← s'.http_message
      some (parse_path m' s')

    -- The event, on a session that has a message.
    abbrev pub handle_with : Event → HttpMessage → HttpSession → Option (ℕ × HttpSession)
    handle_with message_begin m s = some (0, on_message_begin s)
    handle_with (url at) m s = some (0, record s { http_message = some (append_url at m) })
    handle_with (status code at) m s =
        some (0, record s { http_message = some (set_status parser.status_str code m) })
    handle_with (header_field at) m s = some (0, on_header_field at m s)
    handle_with (header_value at) m s = some (0, on_header_value at s)
    handle_with (headers_complete method) m s = on_headers_complete method m s
    handle_with (body at) m s = some (0, record s { http_message = some (append_body at m) })
    handle_with message_complete m s = some (call_message on_message m s)
    handle_with chunk_header m s = some (0, s)
    handle_with chunk_complete m s = some (0, s)

    -- The event, before there is a message: what follows the null pointer fails.
    abbrev pub handle_without : Event → HttpSession → Option (ℕ × HttpSession)
    handle_without message_begin s = some (0, on_message_begin s)
    handle_without (header_field at) s =
        if s.last_is_value && not (is_empty s.cur_field)
        then none
        else some (0, bare_header_field at s)
    handle_without (header_value at) s = some (0, on_header_value at s)
    handle_without message_complete s = elim on_message [ none ↦ some (0, s) | some f ↦ none ]
    handle_without chunk_header s = some (0, s)
    handle_without chunk_complete s = some (0, s)
    handle_without e s = none

    abbrev pub handle_at : Option HttpMessage → Event → HttpSession → Option (ℕ × HttpSession)
    handle_at none e s = handle_without e s
    handle_at (some m) e s = handle_with e m s

    unfoldable pub handle : Event → HttpSession → Option (ℕ × HttpSession)
    handle message_begin s = some (0, on_message_begin s)
    handle e s = handle_at s.http_message e s

    -- The calls of `http_parser_execute`, up to the first that does not return 0, and what that returned.
    unfoldable pub run : List Event → HttpSession → Option (ℕ × HttpSession)
    run [] s = some (0, s)
    run (e ∷ es) s = handle e s >>= λ (ret, s').
        (let rest = run es s' in if ret == 0 then rest else some (ret, s'))

    -- `execute`: `events` are the calls that `http_parser_execute` makes with a struct for some bytes, and
    -- `after` is what it leaves of the struct of a session, whose callbacks may stop it.
    unfoldable pub execute :
        (Bytes → Bytes → List Event)
        → (Bytes → HttpSession → Bytes)
        → Bytes
        → HttpSession
        → Option HttpSession
    execute events after buf s = do
      (_, s') ← run (events s.parser buf) s
      some (record s' { parser = after buf s })
