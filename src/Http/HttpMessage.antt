-- ===== src/Http/HttpMessage.antt =====
-- src/http/HttpMessage.h. A `std::map` is an association list in the order of its keys. The strings
-- of http_parser's method and status codes are parameters.
pub mod Headers
pub mod Fields
use libcpp.Prelude.{
  ℕ, ◌≡◌, true, false, Bool, Option, none, some, List, [], ◌∷◌, ◌++◌, if◌then◌else◌,
}
use libcpp.Prelude.Bytes.{Bytes, codes}
use libcpp.Prelude.Dicts.{find, set, erase}
use libcpp.Prelude.Decimal.{decimal}

abbrev pub Headers : Type 0
Headers = List (Bytes × Bytes)

pub record HttpMessage : Type 0 where
  pub method : Bytes
  pub url : Bytes
  pub status : ℕ
  pub hint : Bytes
  pub version : Bytes
  pub headers : Headers
  pub body : Bytes
  pub path : Bytes

abbrev pub status_ok : ℕ
status_ok = 200

abbrev pub init : HttpMessage
init = record {
  method = [];
  url = [];
  status = status_ok;
  hint = [];
  version = codes "HTTP/1.1";
  headers = [];
  body = [];
  path = [];
}

abbrev pub append_url : Bytes → HttpMessage → HttpMessage
append_url url m = record m { url = m.url ++ url }

abbrev pub set_version : Bytes → HttpMessage → HttpMessage
set_version version m = record m { version = version }

abbrev pub add_header : Bytes → Bytes → HttpMessage → HttpMessage
add_header field value m = record m { headers = set field value m.headers }

abbrev pub append_body : Bytes → HttpMessage → HttpMessage
append_body body m = record m { body = m.body ++ body }

abbrev pub set_path : Bytes → HttpMessage → HttpMessage
set_path path m = record m { path = path }

abbrev pub value_or_empty : Option Bytes → Bytes
value_or_empty none = []
value_or_empty (some v) = v

unfoldable pub get_value_by_header : Bytes → HttpMessage → Bytes
get_value_by_header header m = value_or_empty (find header m.headers)

abbrev pub reset_body : HttpMessage → HttpMessage
reset_body m = record m { body = [] }

abbrev pub del_header_by_field : Bytes → HttpMessage → HttpMessage
del_header_by_field field m = record m { headers = erase field m.headers }

abbrev pub crlf : Bytes
crlf = 13 ∷ 10 ∷ []

abbrev pub header_lines : Headers → Bytes
header_lines [] = []
header_lines ((f, v) ∷ hs) = f ++ codes ": " ++ v ++ crlf ++ header_lines hs

unfoldable pub get_request_as_string : HttpMessage → Bytes
get_request_as_string m =
    m.method
    ++ codes " "
    ++ m.url
    ++ codes " "
    ++ m.version
    ++ crlf
    ++ header_lines m.headers
    ++ crlf
    ++ m.body

module _ (method_str : ℕ → Bytes) where
  abbrev pub set_method : ℕ → HttpMessage → HttpMessage
  set_method method m = record m { method = method_str method }

module _ (status_str : ℕ → Bytes) where
  abbrev pub set_status : ℕ → HttpMessage → HttpMessage
  set_status status m = record m { status = status; hint = m.hint ++ status_str status }

  -- With the message that it leaves.
  unfoldable pub get_response_as_string : HttpMessage → Bytes × HttpMessage
  get_response_as_string m =
      let m' = record m { hint = m.hint ++ status_str m.status } in
      (
        m'.version
            ++ codes " "
            ++ decimal m'.status
            ++ codes " "
            ++ m'.hint
            ++ crlf
            ++ header_lines m'.headers
            ++ crlf
            ++ m'.body,
        m',
      )
