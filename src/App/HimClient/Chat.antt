-- ===== src/App/HimClient/Chat.antt =====
-- What the chat client sends, whatever was typed before.
use libcpp.Prelude.{
  ℕ, ◌+◌, ◌≤◌, ◌≡◌, refl, sym, ◌∙◌, inl, inr, true, false, Option, some, List, [], ◌∷◌, ◌++◌, ◌>>=◌,
  length, Option-cases, Returns, Returns-bind, Returns-imp, subst, append-nil, append_assoc,
  map-append,
}
use libcpp.Prelude.Bytes.{Bytes}
use libcpp.Prelude.Dicts.{set}
use libcpp.Io.Buffer.{
  Buffer, cheap_prepend, max_size, received, read_fd, retrieve_as_string, readable_bytes, peek,
  retrieve_all,
}
use libcpp.Http.HttpMessage.{get_request_as_string}
use libcpp.App.HimClient.{
  HimClient, Outcome, running, exited, dummy_url, http_post, next_word, read_line, obey,
  handle_stdin_read, chat, quit, say, renew, on_connection, login, send_login,
}
use libcpp.App.HimClient as HimClient
use libcpp.Io.Buffer as Buffer
use libcpp.App.HimClient.Line.{Emptied, read_line-received, init-Emptied}
use libcpp.App.HimClient.Talk.{Command, parse, Talk, heard, is_stop, quiet, posted, posts, texts}
use libcpp.App.HimClient.Obeyed.{Is, Done, obey-Done}

abbrev pub client : Outcome → HimClient
client (running c) = c
client (exited c) = c

abbrev pub and_then : (HimClient → Option Outcome) → Outcome → Option Outcome
and_then f (running c) = f c
and_then f (exited c) = some (exited c)

-- Each line fits into a buffer.
abbrev pub Fit : List Bytes → Type 0
Fit [] = Unit
Fit (l ∷ ls) = (cheap_prepend + length l ≤ max_size) × Fit ls

module _ (method_str : ℕ → Bytes) where
  -- `handleStdinRead` for each line, up to one that ends the process.
  abbrev pub on_lines : List Bytes → HimClient → Option Outcome
  on_lines [] c = some (running c)
  on_lines (l ∷ ls) c = handle_stdin_read method_str (received l) c >>= and_then (on_lines ls)

  -- A client that is made, connected, and given the lines.
  abbrev pub talk : Bytes → Bytes → List Bytes → Option Outcome
  talk uname pwd ls = do
    c ← HimClient.init uname pwd
    c' ← on_connection method_str true c
    on_lines ls c'

  -- The client before a line.
  abbrev Ready : Bytes → Talk → HimClient → Type 0
  Ready u t c = Is method_str u t c × Emptied c.user_input_buffer

  abbrev After : Bytes → Command → Talk → HimClient → Outcome → Type 0
  After u k t c (running c') =
      (is_stop k ≡ false)
      × Ready u (heard k t) c'
      × (c'.sent ≡ c.sent ++ texts (posted method_str u k t))
  After u k t c (exited c') =
      (is_stop k ≡ true) × (c'.sent ≡ c.sent ++ texts (posted method_str u k t))

  Done-After :
      (u : Bytes) (k : Command) (t : Talk) (c : HimClient) (b : Buffer) (o : Outcome)
      → Emptied b
      → Done method_str u k t (record c { user_input_buffer = b }) o
      → After u k t c o
  Done-After u k t c b (running c') e (s, i, f, g) = (s, (i, subst Emptied (sym f) e), g)
  Done-After u k t c b (exited c') e d = d

  handle-After :
      (u line : Bytes) (t : Talk) (c : HimClient)
      → cheap_prepend + length line ≤ max_size
      → Ready u t c
      → Returns (After u (parse line) t c) (handle_stdin_read method_str (received line) c)
  unfolding handle_stdin_read
  handle-After u line t c h (i, e) =
      Returns-bind (λ (l, b). (l ≡ line) × Emptied b) (After u (parse line) t c)
        (read_line (received line) c.user_input_buffer) _
        (read_line-received line c.user_input_buffer e h)
        λ (l, b) (q, e').
          let c' : HimClient = record c { user_input_buffer = b } in
          Returns-imp _ _ (obey method_str l c')
            (rw q (
              obey-Done method_str u line t c'
                (record { name = i.name; chats = i.chats; msg = i.msg; connected = i.connected })))
            (λ o. Done-After u (parse line) t c b o e')

  later :
      (u l : Bytes) (ls : List Bytes) (t : Talk) (c : HimClient)
      → ((c' : HimClient)
          → Ready u (heard (parse l) t) c'
          → Returns
              (λ o. (client o).sent ≡ c'.sent ++ texts (posts method_str u ls (heard (parse l) t)))
              (on_lines ls c'))
      → (o : Outcome) → After u (parse l) t c o
      → Returns
          (λ o'. (client o').sent ≡ c.sent ++ texts (posts method_str u (l ∷ ls) t))
          (and_then (on_lines ls) o)
  later u l ls t c all (exited c') (s, e) =
      rw (e, s, append-nil (posted method_str u (parse l) t)) refl
  later u l ls t c all (running c') (s, r, e) = Returns-imp _ _ (on_lines ls c') (all c' r) λ o q.
      q
      ∙ rw
          (
            s,
            e,
            map-append get_request_as_string (posted method_str u (parse l) t)
                (posts method_str u ls (heard (parse l) t)),
          )
          (append_assoc c.sent (texts (posted method_str u (parse l) t))
            (texts (posts method_str u ls (heard (parse l) t))))

  on_lines-posts :
      (u : Bytes) (ls : List Bytes) (t : Talk) (c : HimClient)
      → Fit ls
      → Ready u t c
      → Returns (λ o. (client o).sent ≡ c.sent ++ texts (posts method_str u ls t)) (on_lines ls c)
  on_lines-posts u [] t c h r = sym (append-nil c.sent)
  on_lines-posts u (l ∷ ls) t c (h, hs) r =
      Returns-bind (After u (parse l) t c)
        (λ o. (client o).sent ≡ c.sent ++ texts (posts method_str u (l ∷ ls) t))
        (handle_stdin_read method_str (received l) c) (and_then (on_lines ls))
        (handle-After u l t c h r)
        (later u l ls t c λ c'. on_lines-posts u ls (heard (parse l) t) c' hs)

  -- A client that is made, connected and given lines that fit into a buffer sends the login, and then, for each
  -- line that is no command while a chat is open, one message: its headers are the kind and the name of the
  -- chat that was opened last, the length of the word, and the user's name, and its body is the word,
  -- whatever chats and words were before. It sends nothing for other lines,
  -- goes on after a `quit` without a chat, and sends nothing after `exit`.
  pub talk-posts :
      (uname pwd : Bytes) (ls : List Bytes)
      → Fit ls
      → Returns
          (λ o.
            (client o).sent ≡ texts (login method_str uname pwd ∷ posts method_str uname ls quiet))
          (talk uname pwd ls)
  unfolding HimClient.init on_connection send_login set
  talk-posts uname pwd ls h = elim (Option-cases Buffer.init) [
    | inl q ↦ absurd (rw q at init-Emptied)
    | inr (b, q) ↦ rw q (
        on_lines-posts uname ls quiet _ h (
          record { name = refl; chats = refl; msg = refl; connected = refl },
          rw q at init-Emptied,
        ))
  ]
