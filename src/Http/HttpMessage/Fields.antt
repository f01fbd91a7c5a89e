-- ===== src/Http/HttpMessage/Fields.antt =====
-- The text of a request as a function of what its header fields are last given, whatever the calls.
use libcpp.Prelude.{◌≡◌, refl, sym, ap, ◌∙◌, [], ◌∷◌}
use mathlib.Core.Quot
use mathlib.Core.Quot.{Quot}
use libcpp.Prelude.Bytes.{Bytes}
use libcpp.Prelude.Dicts.{find, Sorted, set-Sorted}
use libcpp.Prelude.Dicts.Unique.{Sorted-unique}
use libcpp.Http.HttpMessage.{Headers, HttpMessage, add_header, get_request_as_string}
use libcpp.Http.HttpMessage.Headers.{last_value, add_headers, find-add_headers}

-- Two lists of calls of `addHeader` that give each field the same last value.
abbrev pub SameValues : HttpMessage → Headers → Headers → Type 0
SameValues m hs js =
    (k : Bytes) → last_value k (find k m.headers) hs ≡ last_value k (find k m.headers) js

add_headers-Sorted :
    (hs : Headers) (m : HttpMessage) → Sorted m.headers → Sorted (add_headers hs m).headers
add_headers-Sorted [] m s = s
add_headers-Sorted ((f, v) ∷ hs) m s =
    add_headers-Sorted hs (add_header f v m) (set-Sorted f v m.headers s)

-- Nothing but the headers is changed.
add_headers-rest :
    (hs : Headers) (m : HttpMessage)
    → add_headers hs m ≡ record m { headers = (add_headers hs m).headers }
add_headers-rest [] m = refl
add_headers-rest ((f, v) ∷ hs) m = add_headers-rest hs (add_header f v m)

add_headers-SameValues :
    (hs js : Headers) (m : HttpMessage)
    → Sorted m.headers
    → SameValues m hs js
    → add_headers hs m ≡ add_headers js m
add_headers-SameValues hs js m s e =
    add_headers-rest hs m
    ∙ ap (λ l. record m { headers = l })
        (Sorted-unique (add_headers hs m).headers (add_headers js m).headers
          (add_headers-Sorted hs m s) (add_headers-Sorted js m s)
          (λ k. find-add_headers k hs m ∙ e k ∙ sym (find-add_headers k js m)))
    ∙ sym (add_headers-rest js m)

-- Any calls of `addHeader`, on a message whose headers are in order, that give each field the same last value
-- give the same text of the request, in whatever order they come and however often.
pub get_request_as_string-SameValues :
    (hs js : Headers) (m : HttpMessage)
    → Sorted m.headers
    → SameValues m hs js
    → get_request_as_string (add_headers hs m) ≡ get_request_as_string (add_headers js m)
get_request_as_string-SameValues hs js m s e =
    ap get_request_as_string (add_headers-SameValues hs js m s e)

module _ (m : HttpMessage) (s : Sorted m.headers) where
  -- What the calls leave of their order.
  abbrev pub Fields : Type 0
  Fields = Quot (SameValues m)

  pub bytes_set : IsSet Bytes
  bytes_set = hlevel

  abbrev pub request_text : Fields → Bytes
  request_text =
      Quot.lift bytes_set (λ hs. get_request_as_string (add_headers hs m))
        (λ hs js e. get_request_as_string-SameValues hs js m s e)
