-- ===== src/App/HimClient/Talk.antt =====
-- What the lines of a user of the chat client ask for, and the messages of the user.
use libcpp.Prelude.{
  ℕ, ◌≡◌, refl, Bool, true, false, Option, none, some, List, [], ◌∷◌, ◌++◌, if◌then◌else◌, length,
  map,
}
use libcpp.Prelude.Bytes.{Bytes, codes, bytes_eq, bytes_lt}
use libcpp.Prelude.Dicts.{set, erase}
use libcpp.Prelude.Decimal.{decimal}
use libcpp.Http.HttpMessage.{HttpMessage, get_request_as_string}
use libcpp.Http.HttpMessage as HttpMessage
use libcpp.App.HimClient.{dummy_url, http_post, next_word}

-- What a line asks for, by its first word.
pub data Command : Type 0 where
  look : Command
  chat_with : Bytes → Bytes → Command
  leave : Command
  stop : Command
  tell : Bytes → Command

unfoldable pub parse : Bytes → Command
parse line =
    let (cmd, rest) = next_word line in
    let (target, rest') = next_word rest in
    let (id, rest'') = next_word rest' in
    if bytes_eq cmd (codes "help")
    then look
    else if bytes_eq cmd (codes "show")
    then look
    else if bytes_eq cmd (codes "chat")
    then chat_with target id
    else if bytes_eq cmd (codes "quit")
    then leave
    else if bytes_eq cmd (codes "exit")
    then stop
    else tell cmd

-- The chat that is open, if one is, as its kind and the name of the peer; and what was said last.
pub record Talk : Type 0 where
  pub peer : Option (Bytes × Bytes)
  pub last : Option Bytes

abbrev pub is_stop : Command → Bool
is_stop stop = true
is_stop k = false

abbrev pub heard : Command → Talk → Talk
heard look t = t
heard (chat_with target id) t = record t { peer = some (target, id) }
heard leave t = record t { peer = none }
heard stop t = t
heard (tell w) t = record t { last = elim t.peer [ none ↦ t.last | some p ↦ some w ] }

abbrev pub kind_field : Option (Bytes × Bytes) → HttpMessage.Headers
kind_field none = []
kind_field (some (target, id)) = (codes "ChatType", target) ∷ []

abbrev length_field : Option Bytes → HttpMessage.Headers
length_field none = []
length_field (some w) = (codes "Content-Length", decimal (length w)) ∷ []

abbrev peer_field : Option (Bytes × Bytes) → HttpMessage.Headers
peer_field none = []
peer_field (some (target, id)) = (codes "PeerName", id) ∷ []

abbrev pub headers : Option (Bytes × Bytes) → Option Bytes → Bytes → HttpMessage.Headers
headers p l u = kind_field p ++ (length_field l ++ (peer_field p ++ ((codes "Username", u) ∷ [])))

pub chat_headers :
    (p : Option (Bytes × Bytes)) (l : Option Bytes) (u target id : Bytes)
    → set (codes "PeerName") id (set (codes "ChatType") target (headers p l u))
      ≡ headers (some (target, id)) l u
unfolding set bytes_lt bytes_eq
chat_headers none none u target id = refl
chat_headers none (some w) u target id = refl
chat_headers (some p) none u target id = refl
chat_headers (some p) (some w) u target id = refl

pub quit_headers :
    (l : Option Bytes) (u target id : Bytes)
    → erase (codes "PeerName") (erase (codes "ChatType") (headers (some (target, id)) l u))
      ≡ headers none l u
unfolding erase bytes_eq
quit_headers none u target id = refl
quit_headers (some w) u target id = refl

pub say_headers :
    (p : Bytes × Bytes) (l : Option Bytes) (u w : Bytes)
    → set
        (codes "Content-Length")
        (decimal (length w))
        (erase (codes "Content-Length") (headers (some p) l u))
      ≡ headers (some p) (some w) u
unfolding set erase bytes_lt bytes_eq
say_headers p none u w = refl
say_headers p (some v) u w = refl

abbrev pub is_open : Option (Bytes × Bytes) → Bool
is_open none = false
is_open (some p) = true

abbrev said : Option Bytes → Bytes
said none = []
said (some w) = w

-- No chat is open, and nothing was said.
abbrev pub quiet : Talk
quiet = record { peer = none; last = none }

module _ (method_str : ℕ → Bytes) where
  abbrev method : Option Bytes → Bytes
  method none = []
  method (some w) = method_str http_post

  -- The message of user `u`, all of it.
  abbrev pub talk_msg : Bytes → Talk → HttpMessage
  talk_msg u t = record HttpMessage.init {
    method = method t.last;
    url = dummy_url;
    headers = headers t.peer t.last u;
    body = said t.last;
  }

  -- What a command of user `u` has sent.
  abbrev pub posted : Bytes → Command → Talk → List HttpMessage
  posted u (tell w) t = if is_open t.peer then talk_msg u (heard (tell w) t) ∷ [] else []
  posted u k t = []

  -- What the lines have sent, up to one that asks to stop.
  abbrev pub posts : Bytes → List Bytes → Talk → List HttpMessage
  posts u [] t = []
  posts u (l ∷ ls) t =
      posted u (parse l) t
      ++ (let rest = posts u ls (heard (parse l) t) in if is_stop (parse l) then [] else rest)

abbrev pub texts : List HttpMessage → List Bytes
texts ms = map get_request_as_string ms
