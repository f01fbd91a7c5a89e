-- ===== src/App/HimServer/Inbox.antt =====
-- What each user of the chat server is sent.
use libcpp.Prelude.{
  ℕ, ◌≡◌, refl, sym, ap, ◌∙◌, inl, inr, Bool, ◌&&◌, not, true, false, List, [], ◌∷◌, ◌++◌,
  if◌then◌else◌, ◌==◌, Bool-cases, append-nil, append_assoc,
}
use libcpp.Prelude.Bytes.{Bytes, bytes_eq, bytes_lt}
use libcpp.Prelude.Dicts.{find, set, find-set, set-Sorted, Sorted}
use libcpp.Http.HttpMessage.{HttpMessage, get_request_as_string}
use libcpp.App.HimServer.{UserSessionMap, HimServer, init, is_some, is_empty, route}
use libcpp.App.HimServer.Registered.{
  username, on_bodies, is_new, on_body-new, on_body-route, route-users,
}
use libcpp.App.HimServer.Sends.{received, addressed, Owns, received-route}

abbrev pub member : Bytes → List Bytes → Bool
member u [] = false
member u (v ∷ seen) = if bytes_eq u v then true else member u seen

-- What user `u` is to get, if the names in `seen` are known before: the first message with a name makes
-- it known, and each other one goes to the known users that it is addressed to.
abbrev pub inbox : Bytes → List Bytes → List (ℕ × HttpMessage) → List Bytes
inbox u seen [] = []
inbox u seen ((s, m) ∷ ms) =
    if not (member (username m) seen) && not (is_empty (username m))
    then inbox u (username m ∷ seen) ms
    else if member u seen && addressed u m
    then get_request_as_string m ∷ inbox u seen ms
    else inbox u seen ms

-- The messages from session `s`, and no others, give the name `u`.
abbrev pub Speaks : Bytes → ℕ → List (ℕ × HttpMessage) → Type 0
Speaks u s [] = Unit
Speaks u s ((t, m) ∷ ms) = ((t == s) ≡ bytes_eq u (username m)) × Speaks u s ms

set-Owns :
    (u v : Bytes) (s t : ℕ) (l : UserSessionMap)
    → (t == s) ≡ bytes_eq u v
    → Owns u s l
    → Owns u s (set v t l)
unfolding set
set-Owns u v s t [] e h = (e, tt)
set-Owns u v s t ((w, r) ∷ l) e (f, h) = elim (Bool-cases (bytes_lt v w)) [
  | inl k ↦ rw k (e, (f, h))
  | inr k ↦ elim (Bool-cases (bytes_eq v w)) [
    | inl q ↦ rw (k, q) (e, h)
    | inr q ↦ rw (k, q) (f, set-Owns u v s t l e h)
  ]
]

-- Before a message, with `seen` the names that are registered.
abbrev Known : Bytes → ℕ → List Bytes → HimServer → Type 0
Known u s seen h =
    Sorted h.user_session_map
    × Owns u s h.user_session_map
    × ((v : Bytes) → is_some (find v h.user_session_map) ≡ member v seen)

route-inbox :
    (u : Bytes) (s : ℕ) (m : HttpMessage) (h : HimServer) (seen : List Bytes)
    → Known u s seen h
    → Known u s seen (route m h)
route-inbox u s m h seen k = rw (route-users m h) k

new-Known :
    (u : Bytes) (s t : ℕ) (m : HttpMessage) (h : HimServer) (seen : List Bytes)
    → (t == s) ≡ bytes_eq u (username m)
    → Known u s seen h
    → Known u s
        (username m ∷ seen)
        (record h { user_session_map = set (username m) t h.user_session_map })
new-Known u s t m h seen e (d, o, k) = (
  set-Sorted (username m) t h.user_session_map d,
  set-Owns u (username m) s t h.user_session_map e o,
  λ v.
      rw (find-set v (username m) t h.user_session_map)
        (elim (Bool-cases (bytes_eq v (username m))) [ inl q ↦ rw q refl | inr q ↦ rw q (k v) ]),
)

on_bodies-inbox_from :
    (u : Bytes) (s : ℕ) (ms : List (ℕ × HttpMessage)) (h : HimServer) (seen : List Bytes)
    → Speaks u s ms
    → Known u s seen h
    → received s (on_bodies ms h).sent ≡ received s h.sent ++ inbox u seen ms
on_bodies-inbox_from u s [] h seen sp k = sym (append-nil (received s h.sent))
on_bodies-inbox_from u s ((t, m) ∷ ms) h seen (e, sp) k = elim (Bool-cases (is_new m h)) [
  | inl n ↦
      ap (λ h'. received s (on_bodies ms h').sent) (on_body-new t m h n)
      ∙ rw (rw (k.2 (username m)) at n)
          (on_bodies-inbox_from u s ms _ (username m ∷ seen) sp (new-Known u s t m h seen e k))
  | inr n ↦
      ap (λ h'. received s (on_bodies ms h').sent) (on_body-route t m h n)
      ∙ rw (rw (k.2 (username m)) at n) (
          on_bodies-inbox_from u s ms (route m h) seen sp (route-inbox u s m h seen k)
          ∙ rw (received-route u s m h k.0 k.1, k.2 u)
              (elim (Bool-cases (member u seen && addressed u m)) [
                | inl a ↦ rw a (
                    append_assoc (received s h.sent) (get_request_as_string m ∷ [])
                      (inbox u seen ms))
                | inr a ↦ rw (a, append-nil (received s h.sent)) refl
              ]))
]

-- A server that starts without users: if one session sends all messages with the name `u`, and no others,
-- then what the server sends to that session is the text of each later message that is addressed to
-- `u`, once and in their order; the first message with a name only makes the name known.
pub on_bodies-inbox :
    (u : Bytes) (s : ℕ) (ms : List (ℕ × HttpMessage))
    → Speaks u s ms
    → received s (on_bodies ms init).sent ≡ inbox u [] ms
unfolding find
on_bodies-inbox u s ms sp = on_bodies-inbox_from u s ms init [] sp (tt, tt, λ v. refl)
