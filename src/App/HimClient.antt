-- ===== src/App/HimClient.antt =====
-- app/him/HimClient.h and HimClient.cc. `session` tells if there is a session, and `sent` has what `send`
-- was called with, of any session. What the client prints is left out.
pub mod Line
pub mod Talk
pub mod Obeyed
pub mod Chat
use libcpp.Prelude.{
  ℕ, Bool, ◌&&◌, ◌||◌, not, true, false, Option, none, some, List, [], ◌∷◌, ◌++◌, ◌>>=◌, leb, ◌==◌,
  if◌then◌else◌, length,
}
use libcpp.Prelude.Bytes.{Bytes, codes, bytes_eq}
use libcpp.Prelude.Decimal.{decimal}
use libcpp.Io.Buffer.{Buffer, Incoming, read_fd, retrieve_as_string}
use libcpp.Io.Buffer as Buffer
use libcpp.Http.HttpMessage.{
  HttpMessage, append_url, append_body, add_header, reset_body, del_header_by_field, set_method,
  get_request_as_string,
}
use libcpp.Http.HttpMessage as HttpMessage

pub record HimClient : Type 0 where
  pub username : Bytes
  pub password : Bytes
  pub chatting : Bool
  pub user_input_buffer : Buffer
  pub user_msg : HttpMessage
  pub session : Bool
  pub sent : List Bytes

-- `exit(0)` ends the process.
pub data Outcome : Type 0 where
  running : HimClient → Outcome
  exited : HimClient → Outcome

abbrev pub dummy_url : Bytes
dummy_url = codes "http://www.dummyUrl.com/tools.html"

abbrev pub http_post : ℕ
http_post = 3

-- The constructor.
unfoldable pub init : Bytes → Bytes → Option HimClient
init uname pwd = do
  b ← Buffer.init
  some (record {
    username = uname;
    password = pwd;
    chatting = false;
    user_input_buffer = b;
    user_msg = add_header (codes "Username") uname (append_url dummy_url HttpMessage.init);
    session = false;
    sent = [];
  })

-- `std::isspace` in the locale of C.
abbrev pub is_space : ℕ → Bool
is_space c = (leb 9 c && leb c 13) || c == 32

abbrev pub skip_spaces : Bytes → Bytes
skip_spaces [] = []
skip_spaces (c ∷ s) = if is_space c then skip_spaces s else c ∷ s

abbrev pub take_word : Bytes → Bytes
take_word [] = []
take_word (c ∷ s) = if is_space c then [] else c ∷ take_word s

abbrev pub drop_word : Bytes → Bytes
drop_word [] = []
drop_word (c ∷ s) = if is_space c then c ∷ s else drop_word s

-- `ss >> word` for an empty word: it stays empty at the end of the stream.
unfoldable pub next_word : Bytes → Bytes × Bytes
next_word s = (take_word (skip_spaces s), drop_word (skip_spaces s))

-- `send` of a session, and of a null pointer.
abbrev pub send : Bytes → HimClient → Option HimClient
send text c = if c.session then some (record c { sent = c.sent ++ (text ∷ []) }) else none

abbrev pub chat : Bytes → Bytes → HimClient → HimClient
chat target id c = record c {
  chatting = true;
  user_msg = add_header (codes "PeerName") id (add_header (codes "ChatType") target c.user_msg);
}

abbrev pub quit : HimClient → HimClient
quit c = if not c.chatting then c else record c {
  user_msg =
      del_header_by_field (codes "PeerName") (del_header_by_field (codes "ChatType") c.user_msg);
  chatting = false;
}

-- A failed read leaves the buffer empty.
abbrev pub read_line : Incoming → Buffer → Option (Bytes × Buffer)
read_line incoming b = read_fd b incoming >>= λ (n, b'). some (retrieve_as_string b')

module _ (method_str : ℕ → Bytes) where
  abbrev pub login : Bytes → Bytes → HttpMessage
  login uname pwd = add_header (codes "Content-Length") (decimal 0) (
      add_header (codes "Username") uname (
        add_header (codes "Password") pwd
          (append_url dummy_url (set_method method_str http_post HttpMessage.init))))

  unfoldable pub send_login : HimClient → Option HimClient
  send_login c = send (get_request_as_string (login c.username c.password)) c

  unfoldable pub on_connection : Bool → HimClient → Option HimClient
  on_connection true c = send_login (record c { session = true })
  on_connection false c = some c

  -- The message for a word, made of the last one.
  abbrev pub renew : Bytes → HttpMessage → HttpMessage
  renew cmd m = append_body cmd (
      add_header (codes "Content-Length") (decimal (length cmd)) (
        del_header_by_field (codes "Content-Length")
          (set_method method_str http_post (reset_body m))))

  abbrev pub say : Bytes → HimClient → Option HimClient
  say cmd c =
      let m = renew cmd c.user_msg in send (get_request_as_string m) (record c { user_msg = m })

  -- What follows the read.
  unfoldable pub obey : Bytes → HimClient → Option Outcome
  obey line c =
      let (cmd, rest) = next_word line in
      let (target, rest') = next_word rest in
      let (id, rest'') = next_word rest' in
      if bytes_eq cmd (codes "help")
      then some (running c)
      else if bytes_eq cmd (codes "show")
      then some (running c)
      else if bytes_eq cmd (codes "chat")
      then some (running (chat target id c))
      else if bytes_eq cmd (codes "quit")
      then some (running (quit c))
      else if bytes_eq cmd (codes "exit")
      then some (exited c)
      else if c.chatting
      then (say cmd c >>= λ c'. some (running c'))
      else some (running c)

  unfoldable pub handle_stdin_read : Incoming → HimClient → Option Outcome
  handle_stdin_read incoming c = do
    (line, b) ← read_line incoming c.user_input_buffer
    obey line (record c { user_input_buffer = b })
