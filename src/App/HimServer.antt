-- ===== src/App/HimServer.antt =====
-- app/him/HimServer.h and HimServer.cc. A session is its address; `sent` has what `send` of the sessions
-- was called with, in order.
pub mod Registered
pub mod Sends
pub mod Inbox
use libcpp.Prelude.{
  ℕ, Bool, ◌&&◌, not, true, false, Option, none, some, List, [], ◌∷◌, ◌++◌, if◌then◌else◌,
}
use libcpp.Prelude.Bytes.{Bytes, codes, bytes_eq}
use libcpp.Prelude.Dicts.{find, set}
use libcpp.Http.HttpMessage.{HttpMessage, get_value_by_header, get_request_as_string}

abbrev pub UserSessionMap : Type 0
UserSessionMap = List (Bytes × ℕ)

pub record HimServer : Type 0 where
  pub user_session_map : UserSessionMap
  pub sent : List (ℕ × Bytes)

abbrev pub init : HimServer
init = record { user_session_map = []; sent = [] }

-- `count(name) != 0`.
abbrev pub is_some : Option ℕ → Bool
is_some none = false
is_some (some s) = true

abbrev pub is_empty : Bytes → Bool
is_empty [] = true
is_empty (x ∷ xs) = false

abbrev pub send : ℕ → Bytes → HimServer → HimServer
send sess text h = record h { sent = h.sent ++ ((sess, text) ∷ []) }

-- What the loop over the users sends.
abbrev pub group_sends : Bytes → Bytes → UserSessionMap → List (ℕ × Bytes)
group_sends name text [] = []
group_sends name text ((user, sess) ∷ users) =
    if bytes_eq user name
    then group_sends name text users
    else (sess, text) ∷ group_sends name text users

abbrev pub send_user : Option ℕ → Bytes → HimServer → HimServer
send_user none text h = h
send_user (some sess) text h = send sess text h

abbrev pub send_group : Bytes → Bytes → HimServer → HimServer
send_group name text h = record h { sent = h.sent ++ group_sends name text h.user_session_map }

-- What is left of `onBody` for a message that does not register its sender.
unfoldable pub route : HttpMessage → HimServer → HimServer
route msg h =
    let chat_type = get_value_by_header (codes "ChatType") msg in
    let peer_name = get_value_by_header (codes "PeerName") msg in
    let name = get_value_by_header (codes "Username") msg in
    let text = get_request_as_string msg in
    if is_empty peer_name
    then h
    else if bytes_eq chat_type (codes "user")
    then send_user (find peer_name h.user_session_map) text h
    else if bytes_eq chat_type (codes "group")
    then send_group name text h
    else h

-- Every path returns 0.
unfoldable pub on_body : ℕ → HttpMessage → HimServer → ℕ × HimServer
on_body sess msg h =
    let name = get_value_by_header (codes "Username") msg in
    if not (is_some (find name h.user_session_map)) && not (is_empty name)
    then (0, record h { user_session_map = set name sess h.user_session_map })
    else (0, route msg h)
