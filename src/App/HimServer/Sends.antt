-- ===== src/App/HimServer/Sends.antt =====
-- What one message has the chat server send to a session.
use libcpp.Prelude.{
  ℕ, ◌≡◌, refl, sym, ap, ◌∙◌, inl, inr, Bool, ◌&&◌, not, true, false, none, some, List, [], ◌∷◌,
  ◌++◌, if◌then◌else◌, ◌==◌, Bool-cases, Option-cases, append-nil,
}
use libcpp.Prelude.Bytes.{Bytes, codes, bytes_eq, bytes_eq_sound}
use libcpp.Prelude.Dicts.{find, find-Above, Above-Sorted, Sorted}
use libcpp.Http.HttpMessage.{HttpMessage, get_value_by_header, get_request_as_string}
use libcpp.App.HimServer.{
  UserSessionMap, HimServer, is_some, is_empty, group_sends, send_user, route,
}
use libcpp.App.HimServer.Registered.{username}

-- The texts among them that are sent to session `s`.
abbrev pub received : ℕ → List (ℕ × Bytes) → List Bytes
received s [] = []
received s ((t, text) ∷ l) = if t == s then text ∷ received s l else received s l

abbrev pub peer_name : HttpMessage → Bytes
peer_name m = get_value_by_header (codes "PeerName") m

abbrev pub chat_type : HttpMessage → Bytes
chat_type m = get_value_by_header (codes "ChatType") m

-- The message is to the user alone, or to a group and not from the user.
abbrev pub addressed : Bytes → HttpMessage → Bool
addressed u m =
    not (is_empty (peer_name m))
    && (if bytes_eq (chat_type m) (codes "user")
        then bytes_eq u (peer_name m)
        else bytes_eq (chat_type m) (codes "group") && not (bytes_eq u (username m)))

-- Session `s` is that of user `u`, and of no other.
abbrev pub Owns : Bytes → ℕ → UserSessionMap → Type 0
Owns u s [] = Unit
Owns u s ((v, t) ∷ users) = ((t == s) ≡ bytes_eq u v) × Owns u s users

abbrev pub only_if : Bool → Bytes → List Bytes
only_if b text = if b then text ∷ [] else []

received-append :
    (s : ℕ) (l k : List (ℕ × Bytes)) → received s (l ++ k) ≡ received s l ++ received s k
received-append s [] k = refl
received-append s ((t, text) ∷ l) k = elim (Bool-cases (t == s)) [
  | inl e ↦ rw (e, received-append s l k) refl
  | inr e ↦ rw (e, received-append s l k) refl
]

find-Owns :
    (u v : Bytes) (s t : ℕ) (l : UserSessionMap)
    → Owns u s l
    → find v l ≡ some t
    → (t == s) ≡ bytes_eq u v
unfolding find
find-Owns u v s t [] h e = absurd cc
find-Owns u v s t ((w, r) ∷ l) (f, h) e = elim (Bool-cases (bytes_eq v w)) [
  | inl q ↦ cc (rw q at e, f, bytes_eq_sound v w q)
  | inr q ↦ find-Owns u v s t l h (rw q at e)
]

received-group_sends :
    (u name text : Bytes) (s : ℕ) (l : UserSessionMap)
    → Sorted l
    → Owns u s l
    → received s (group_sends name text l)
      ≡ only_if (is_some (find u l) && not (bytes_eq u name)) text
unfolding find
received-group_sends u name text s [] d h = refl
received-group_sends u name text s ((v, t) ∷ l) d (e, h) = elim (Bool-cases (bytes_eq u v)) [
  | inl q ↦
      let rest = received-group_sends u name text s l (Above-Sorted v l d) h in
      let none_left : find u l ≡ none = rw (bytes_eq_sound u v q) (find-Above v l d) in
      rw (q, sym (bytes_eq_sound u v q))
        (elim (Bool-cases (bytes_eq u name)) [
          | inl r ↦ rw r (rw none_left at rest)
          | inr r ↦ rw (r, e, q) (ap (◌∷◌ text) (rw none_left at rest))
        ])
  | inr q ↦ elim (Bool-cases (bytes_eq v name)) [
    | inl r ↦ rw (q, r) (received-group_sends u name text s l (Above-Sorted v l d) h)
    | inr r ↦ rw (q, r, e, q) (received-group_sends u name text s l (Above-Sorted v l d) h)
  ]
]

nothing : (b : Bool) (text : Bytes) (l : List Bytes) → l ≡ l ++ only_if (b && false) text
nothing true text l = sym (append-nil l)
nothing false text l = sym (append-nil l)

received-send_user :
    (u peer text : Bytes) (s : ℕ) (h : HimServer)
    → Owns u s h.user_session_map
    → received s (send_user (find peer h.user_session_map) text h).sent
      ≡ received s h.sent ++ only_if (is_some (find u h.user_session_map) && bytes_eq u peer) text
received-send_user u peer text s h o = elim (Option-cases (find peer h.user_session_map)) [
  | inl f ↦ rw f (elim (Bool-cases (bytes_eq u peer)) [
    | inl q ↦ rw (q, bytes_eq_sound u peer q, f) (sym (append-nil (received s h.sent)))
    | inr q ↦ rw q (nothing (is_some (find u h.user_session_map)) text (received s h.sent))
  ])
  | inr (t, f) ↦
      rw (f, received-append s h.sent ((t, text) ∷ []), find-Owns u peer s t h.user_session_map o f)
        (elim (Bool-cases (bytes_eq u peer)) [
          | inl q ↦ rw (q, bytes_eq_sound u peer q, f) refl
          | inr q ↦ rw q (
              append-nil (received s h.sent)
              ∙ nothing (is_some (find u h.user_session_map)) text (received s h.sent))
        ])
]

pub received-route :
    (u : Bytes) (s : ℕ) (m : HttpMessage) (h : HimServer)
    → Sorted h.user_session_map
    → Owns u s h.user_session_map
    → received s (route m h).sent
      ≡ received s h.sent
        ++ only_if (is_some (find u h.user_session_map) && addressed u m) (get_request_as_string m)
unfolding route
received-route u s m h d o = elim (Bool-cases (is_empty (peer_name m))) [
  | inl e ↦
      rw e (
        nothing (is_some (find u h.user_session_map)) (get_request_as_string m) (received s h.sent))
  | inr e ↦ elim (Bool-cases (bytes_eq (chat_type m) (codes "user"))) [
    | inl a ↦ rw (e, a) (received-send_user u (peer_name m) (get_request_as_string m) s h o)
    | inr a ↦ elim (Bool-cases (bytes_eq (chat_type m) (codes "group"))) [
      | inl g ↦
          rw (e, a, g)
            (received-append s h.sent
                (group_sends (username m) (get_request_as_string m) h.user_session_map)
              ∙ ap (◌++◌ (received s h.sent)) (
                  received-group_sends u (username m) (get_request_as_string m) s h.user_session_map
                    d o))
      | inr g ↦
          rw (e, a, g)
            (nothing (is_some (find u h.user_session_map)) (get_request_as_string m)
              (received s h.sent))
    ]
  ]
]
