-- ===== src/Http/HttpServer.antt =====
-- src/http/HttpServer.h, src/http/HttpServer.cc, src/http/HttpClient.h and src/http/HttpClient.cc: the
-- sessions of the connections. A connection is its address. What `http_parser_init` makes of a parser is
-- the parameter `parser_init`, and `execute` of a session, for what http_parser.c does, the parameter
-- `execute`. `none` is a call on a null pointer.
use libcpp.Prelude.{ℕ, Bool, true, false, Option, some, List, ◌>>=◌}
use libcpp.Prelude.Bytes.{Bytes}
use libcpp.Prelude.Maps.{find, erase, put}
use libcpp.Io.Buffer.{Buffer, peek, retrieve_all}
use libcpp.Http.HttpSession.{HttpSession, ParserType, http_request, http_response}
use libcpp.Http.HttpSession as HttpSession

-- The sessions of a server.
abbrev pub SessionMap : Type 0
SessionMap = List (ℕ × HttpSession)

-- `onConnection` of the server, for a connection that is up or down. `junk` is what `lastIsValue_` is in
-- a new session.
unfoldable pub on_connection : (ParserType → Bytes) → Bool → ℕ → Bool → SessionMap → SessionMap
on_connection parser_init junk conn true sessions =
    put conn (HttpSession.init http_request (parser_init http_request) junk) sessions
on_connection parser_init junk conn false sessions = erase conn sessions

-- `onConnection` of the client, which keeps the session of a connection that is down.
unfoldable pub client_on_connection :
    (ParserType → Bytes) → Bool → Bool → Option HttpSession → Option HttpSession
client_on_connection parser_init junk true session =
    some (HttpSession.init http_response (parser_init http_response) junk)
client_on_connection parser_init junk false session = session

module _ (execute : Bytes → HttpSession → Option HttpSession) where
  -- `onMessage` of the server: what the buffer holds is given to the session, and the buffer emptied.
  unfoldable pub on_message : ℕ → Buffer → SessionMap → Option (SessionMap × Buffer)
  on_message conn buf sessions = do
    s ← find conn sessions
    s' ← execute (peek buf) s
    some (put conn s' sessions, retrieve_all buf)

  unfoldable pub client_on_message :
      Buffer → Option HttpSession → Option (Option HttpSession × Buffer)
  client_on_message buf session = do
    s ← session
    s' ← execute (peek buf) s
    some (some s', retrieve_all buf)
