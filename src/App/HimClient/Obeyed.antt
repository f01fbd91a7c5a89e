-- ===== src/App/HimClient/Obeyed.antt =====
-- What one line has the chat client do.
use libcpp.Prelude.{
  ℕ, ◌≡◌, refl, sym, ap, ◌∙◌, inl, inr, true, false, Option, none, some, [], ◌∷◌, ◌++◌, ◌>>=◌,
  if◌then◌else◌, Bool-cases, Returns, append-nil,
}
use libcpp.Prelude.Bytes.{Bytes, codes, bytes_eq}
use libcpp.Http.HttpMessage.{get_request_as_string}
use libcpp.App.HimClient.{
  HimClient, Outcome, running, exited, next_word, obey, chat, quit, say, renew,
}
use libcpp.App.HimClient.Talk.{
  Command, chat_with, tell, parse, Talk, heard, is_stop, chat_headers, quit_headers, say_headers,
  is_open, talk_msg, posted, texts,
}

quit_rest :
    (c : HimClient) → ((quit c).user_input_buffer ≡ c.user_input_buffer) × ((quit c).sent ≡ c.sent)
quit_rest c = elim (Bool-cases c.chatting) [ inl g ↦ rw g (refl, refl) | inr g ↦ rw g (refl, refl) ]

module _ (method_str : ℕ → Bytes) where
  -- The client of user `u`, in that state, once it has a session.
  pub record Is (u : Bytes) (t : Talk) (c : HimClient) : Type 0 where
    pub name : c.username ≡ u
    pub chats : c.chatting ≡ is_open t.peer
    pub msg : c.user_msg ≡ talk_msg method_str u t
    pub connected : c.session ≡ true

  chat-Is :
      (u target id : Bytes) (t : Talk) (c : HimClient)
      → Is u t c
      → Is u (heard (chat_with target id) t) (chat target id c)
  chat-Is u target id t c i = record {
    name = i.name;
    chats = refl;
    msg = rw i.msg (
        ap (λ hs. record (talk_msg method_str u t) { headers = hs })
          (chat_headers t.peer t.last u target id));
    connected = i.connected;
  }

  idle :
      (u : Bytes) (l : Option Bytes) (c : HimClient)
      → Is u (record { peer = none; last = l }) c
      → Is u (record { peer = none; last = l }) (record c { chatting = false })
  idle u l c i = record { name = i.name; chats = refl; msg = i.msg; connected = i.connected }

  quit-Is :
      (u : Bytes) (p : Option (Bytes × Bytes)) (l : Option Bytes) (c : HimClient)
      → Is u (record { peer = p; last = l }) c
      → Is u (record { peer = none; last = l }) (quit c)
  quit-Is u none l c i = rw i.chats (idle u l c i)
  quit-Is u (some (target, id)) l c i = rw i.chats (record {
    name = i.name;
    chats = refl;
    msg = rw i.msg (
        ap
          (λ hs. record (talk_msg method_str u (record { peer = some (target, id); last = l })) {
            headers = hs;
          })
          (quit_headers l u target id));
    connected = i.connected;
  })

  -- What a command leaves, if the client was `c`.
  abbrev pub Done : Bytes → Command → Talk → HimClient → Outcome → Type 0
  Done u k t c (running c') =
      (is_stop k ≡ false)
      × Is u (heard k t) c'
      × (c'.user_input_buffer ≡ c.user_input_buffer)
      × (c'.sent ≡ c.sent ++ texts (posted method_str u k t))
  Done u k t c (exited c') =
      (is_stop k ≡ true) × (c'.sent ≡ c.sent ++ texts (posted method_str u k t))

  renew-talk_msg :
      (u w : Bytes) (p : Bytes × Bytes) (l : Option Bytes)
      → renew method_str w (talk_msg method_str u (record { peer = some p; last = l }))
        ≡ talk_msg method_str u (record { peer = some p; last = some w })
  renew-talk_msg u w p l =
      ap
        (λ hs. record (talk_msg method_str u (record { peer = some p; last = some w })) {
          headers = hs;
        })
        (say_headers p l u w)

  tell-Done :
      (u w : Bytes) (p : Option (Bytes × Bytes)) (l : Option Bytes) (c : HimClient)
      → Is u (record { peer = p; last = l }) c
      → Returns (Done u (tell w) (record { peer = p; last = l }) c) (
          if c.chatting then (say method_str w c >>= λ c'. some (running c')) else some (running c))
  tell-Done u w none l c i = rw i.chats (refl, idle u l c i, refl, sym (append-nil c.sent))
  tell-Done u w (some p) l c i =
      rw (i.chats, i.connected)
        (
          refl,
          record {
            name = i.name;
            chats = refl;
            msg = ap (renew method_str w) i.msg ∙ renew-talk_msg u w p l;
            connected = refl;
          },
          refl,
          ap (λ m. c.sent ++ (get_request_as_string m ∷ []))
              (ap (renew method_str w) i.msg ∙ renew-talk_msg u w p l),
        )

  pub obey-Done :
      (u line : Bytes) (t : Talk) (c : HimClient)
      → Is u t c
      → Returns (Done u (parse line) t c) (obey method_str line c)
  unfolding obey parse
  obey-Done u line t c i = elim (Bool-cases (bytes_eq (next_word line).0 (codes "help"))) [
    | inl a ↦ rw a (refl, i, refl, sym (append-nil c.sent))
    | inr a ↦ elim (Bool-cases (bytes_eq (next_word line).0 (codes "show"))) [
      | inl b ↦ rw (a, b) (refl, i, refl, sym (append-nil c.sent))
      | inr b ↦ elim (Bool-cases (bytes_eq (next_word line).0 (codes "chat"))) [
        | inl d ↦ rw (a, b, d) (refl, chat-Is u _ _ t c i, refl, sym (append-nil c.sent))
        | inr d ↦ elim (Bool-cases (bytes_eq (next_word line).0 (codes "quit"))) [
          | inl e ↦
              rw (a, b, d, e)
                (
                  refl,
                  quit-Is u t.peer t.last c i,
                  (quit_rest c).0,
                  (quit_rest c).1 ∙ sym (append-nil c.sent),
                )
          | inr e ↦ elim (Bool-cases (bytes_eq (next_word line).0 (codes "exit"))) [
            | inl f ↦ rw (a, b, d, e, f) (refl, sym (append-nil c.sent))
            | inr f ↦ rw (a, b, d, e, f) (tell-Done u (next_word line).0 t.peer t.last c i)
          ]
        ]
      ]
    ]
  ]
