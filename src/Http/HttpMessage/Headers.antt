-- ===== src/Http/HttpMessage/Headers.antt =====
-- Looking up the headers of a message.
use libcpp.Prelude.{◌≡◌, refl, ◌∙◌, Option, some, [], ◌∷◌, if◌then◌else◌}
use libcpp.Prelude.Bytes.{Bytes, bytes_eq}
use libcpp.Prelude.Dicts.{find, find-set}
use libcpp.Http.HttpMessage.{Headers, HttpMessage, add_header, get_value_by_header, value_or_empty}

-- The value of the last of the headers with field `k`, or else `before`.
abbrev pub last_value : Bytes → Option Bytes → Headers → Option Bytes
last_value k before [] = before
last_value k before ((f, v) ∷ hs) = last_value k (if bytes_eq k f then some v else before) hs

-- `addHeader` for each of them.
abbrev pub add_headers : Headers → HttpMessage → HttpMessage
add_headers [] m = m
add_headers ((f, v) ∷ hs) m = add_headers hs (add_header f v m)

pub find-add_headers :
    (k : Bytes) (hs : Headers) (m : HttpMessage)
    → find k (add_headers hs m).headers ≡ last_value k (find k m.headers) hs
find-add_headers k [] m = refl
find-add_headers k ((f, v) ∷ hs) m =
    find-add_headers k hs (add_header f v m) ∙ rw (find-set k f v m.headers) refl

-- After any calls of `addHeader`, `getValueByHeader` gives the value that the field was given last; a
-- field without one keeps its value, which is empty if it has none.
pub get_value_by_header-add_headers :
    (k : Bytes) (hs : Headers) (m : HttpMessage)
    → get_value_by_header k (add_headers hs m) ≡ value_or_empty (last_value k (find k m.headers) hs)
unfolding get_value_by_header
get_value_by_header-add_headers k hs m = rw (find-add_headers k hs m) refl
