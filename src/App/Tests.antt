-- ===== src/App/Tests.antt =====
-- Two users of the chat: one of them opens a chat with the other, says a word, and leaves.
use libcpp.Prelude.{ℕ, ◌≡◌, refl, some, List, [], ◌∷◌, Returns, arith}
use libcpp.Prelude.Bytes.{Bytes, codes, bytes_eq, bytes_lt}
use libcpp.Prelude.Dicts.{find, set}
use libcpp.Http.HttpMessage.{HttpMessage, get_value_by_header, get_request_as_string}
use libcpp.App.HimServer.{init, on_body, route}
use libcpp.App.HimServer.Registered.{on_bodies}
use libcpp.App.HimServer.Sends.{received}
use libcpp.App.HimServer.Inbox.{on_bodies-inbox}
use libcpp.App.HimClient.{login, next_word}
use libcpp.App.HimClient.Talk.{posts, quiet, talk_msg, parse}
use libcpp.App.HimClient.Chat.{client, talk, talk-posts}

abbrev methods : ℕ → Bytes
methods k = codes "POST"

abbrev ann : Bytes
ann = codes "ann"

abbrev bob : Bytes
bob = codes "bob"

abbrev lines : List Bytes
lines =
    codes "hi\n"
    ∷ codes "chat user bob\n"
    ∷ codes " hello you\n"
    ∷ codes "quit\n"
    ∷ codes "hi\n"
    ∷ []

abbrev hello : HttpMessage
hello =
    talk_msg methods ann (record { peer = some (codes "user", bob); last = some (codes "hello") })

abbrev story : List (ℕ × HttpMessage)
story =
    (1, login methods ann [])
    ∷ (2, login methods bob [])
    ∷ (3, login methods ann [])
    ∷ (1, hello)
    ∷ []

posts_runs : posts methods ann lines quiet ≡ hello ∷ []
unfolding parse next_word bytes_eq
posts_runs = refl

server_runs : (on_bodies story init).sent ≡ (2, get_request_as_string hello) ∷ []
unfolding on_body route find set get_value_by_header bytes_eq bytes_lt
server_runs = refl

on_bodies-inbox_example : received 2 (on_bodies story init).sent ≡ get_request_as_string hello ∷ []
unfolding get_value_by_header bytes_eq bytes_lt find set
on_bodies-inbox_example = on_bodies-inbox bob 2 story (refl, (refl, (refl, (refl, tt))))

talk-posts_example :
    Returns
      (λ o.
        (client o).sent
        ≡ get_request_as_string (login methods ann []) ∷ get_request_as_string hello ∷ [])
      (talk methods ann [] lines)
unfolding parse next_word bytes_eq
talk-posts_example =
    talk-posts methods ann [] lines
      (omega arith, (omega arith, (omega arith, (omega arith, (omega arith, tt)))))
