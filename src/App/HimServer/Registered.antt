-- ===== src/App/HimServer/Registered.antt =====
-- The users of the chat server.
use libcpp.Prelude.{
  ℕ, ◌≡◌, refl, sym, ◌∙◌, inl, inr, Bool, ◌&&◌, not, true, false, Option, none, some, List, [], ◌∷◌,
  if◌then◌else◌, Bool-cases, Option-cases,
}
use libcpp.Prelude.Bytes.{Bytes, codes, bytes_eq, bytes_eq_sound}
use libcpp.Prelude.Dicts.{find, set, find-set}
use libcpp.Http.HttpMessage.{HttpMessage, get_value_by_header}
use libcpp.App.HimServer.{HimServer, init, is_some, is_empty, route, on_body}

abbrev pub username : HttpMessage → Bytes
username m = get_value_by_header (codes "Username") m

-- All messages, each with the session that it came from, in order.
abbrev pub on_bodies : List (ℕ × HttpMessage) → HimServer → HimServer
on_bodies [] h = h
on_bodies ((s, m) ∷ ms) h = on_bodies ms (on_body s m h).1

-- The session of the first message that gives the name.
abbrev pub first_session : Bytes → List (ℕ × HttpMessage) → Option ℕ
first_session u [] = none
first_session u ((s, m) ∷ ms) = if bytes_eq u (username m) then some s else first_session u ms

abbrev pub or_else : Option ℕ → Option ℕ → Option ℕ
or_else none o = o
or_else (some s) o = some s

pub route-users :
    (m : HttpMessage) (h : HimServer) → (route m h).user_session_map ≡ h.user_session_map
unfolding route
route-users m h = elim (Bool-cases (is_empty (get_value_by_header (codes "PeerName") m))) [
  | inl e ↦ rw e refl
  | inr e ↦ elim (Bool-cases (bytes_eq (get_value_by_header (codes "ChatType") m) (codes "user"))) [
    | inl u ↦
        elim (Option-cases (find (get_value_by_header (codes "PeerName") m) h.user_session_map)) [
          | inl f ↦ rw (e, u, f) refl
          | inr (s, f) ↦ rw (e, u, f) refl
        ]
    | inr u ↦
        elim (Bool-cases (bytes_eq (get_value_by_header (codes "ChatType") m) (codes "group"))) [
          | inl g ↦ rw (e, u, g) refl
          | inr g ↦ rw (e, u, g) refl
        ]
  ]
]

-- The name is new.
abbrev pub is_new : HttpMessage → HimServer → Bool
is_new m h = not (is_some (find (username m) h.user_session_map)) && not (is_empty (username m))

pub on_body-new :
    (s : ℕ) (m : HttpMessage) (h : HimServer)
    → is_new m h ≡ true
    → (on_body s m h).1 ≡ record h { user_session_map = set (username m) s h.user_session_map }
unfolding on_body
on_body-new s m h e = rw e refl

pub on_body-route :
    (s : ℕ) (m : HttpMessage) (h : HimServer) → is_new m h ≡ false → (on_body s m h).1 ≡ route m h
unfolding on_body
on_body-route s m h e = rw e refl

find-on_body :
    (u : Bytes) (s : ℕ) (m : HttpMessage) (h : HimServer)
    → is_empty u ≡ false
    → find u (on_body s m h).1.user_session_map
      ≡ or_else (find u h.user_session_map) (if bytes_eq u (username m) then some s else none)
find-on_body u s m h ne = elim (Bool-cases (is_new m h)) [
  | inl e ↦
      rw (on_body-new s m h e, find-set u (username m) s h.user_session_map)
        (elim (Bool-cases (bytes_eq u (username m))) [
          | inl q ↦ rw (q, bytes_eq_sound u (username m) q) (fresh e)
          | inr q ↦ rw q (or_else-none (find u h.user_session_map))
        ])
  | inr e ↦
      rw (on_body-route s m h e, route-users m h)
        (elim (Bool-cases (bytes_eq u (username m))) [
          | inl q ↦ rw q (
              old (find u h.user_session_map) (rw (sym (bytes_eq_sound u (username m) q), ne) at e))
          | inr q ↦ rw q (or_else-none (find u h.user_session_map))
        ])
]
  where
    or_else-none : (o : Option ℕ) → o ≡ or_else o none
    or_else-none none = refl
    or_else-none (some t) = refl

    fresh : is_new m h ≡ true → some s ≡ or_else (find (username m) h.user_session_map) (some s)
    fresh e = elim (Option-cases (find (username m) h.user_session_map)) [
      | inl f ↦ rw f refl
      | inr (t, f) ↦ absurd (cc (rw f at e))
    ]

    old : (o : Option ℕ) → not (is_some o) && true ≡ false → o ≡ or_else o (some s)
    old none k = absurd cc
    old (some t) k = refl

find-on_bodies :
    (u : Bytes) (ms : List (ℕ × HttpMessage)) (h : HimServer)
    → is_empty u ≡ false
    → find u (on_bodies ms h).user_session_map
      ≡ or_else (find u h.user_session_map) (first_session u ms)
find-on_bodies u [] h ne = elim (Option-cases (find u h.user_session_map)) [
  | inl f ↦ rw f refl
  | inr (t, f) ↦ rw f refl
]
find-on_bodies u ((s, m) ∷ ms) h ne =
    find-on_bodies u ms (on_body s m h).1 ne
    ∙ rw (find-on_body u s m h ne) (elim (Option-cases (find u h.user_session_map)) [
      | inr (t, f) ↦ rw f refl
      | inl f ↦
          rw f
            (elim (Bool-cases (bytes_eq u (username m))) [ inl q ↦ rw q refl | inr q ↦ rw q refl ])
    ])

find-nil-on_body :
    (s : ℕ) (m : HttpMessage) (h : HimServer)
    → find [] h.user_session_map ≡ none
    → find [] (on_body s m h).1.user_session_map ≡ none
find-nil-on_body s m h k = elim (Bool-cases (is_new m h)) [
  | inr e ↦ rw (on_body-route s m h e, route-users m h) k
  | inl e ↦
      rw (on_body-new s m h e, find-set [] (username m) s h.user_session_map)
        (elim (Bool-cases (bytes_eq [] (username m))) [
          | inr q ↦ rw q k
          | inl q ↦ absurd (not_new (sym (bytes_eq_sound [] (username m) q)) e)
        ])
]
  where
    not_new : username m ≡ [] → is_new m h ≡ true → ⊥
    not_new q e = cc (rw (q, k) at e)

find-nil-on_bodies :
    (ms : List (ℕ × HttpMessage)) (h : HimServer)
    → find [] h.user_session_map ≡ none
    → find [] (on_bodies ms h).user_session_map ≡ none
find-nil-on_bodies [] h k = k
find-nil-on_bodies ((s, m) ∷ ms) h k =
    find-nil-on_bodies ms (on_body s m h).1 (find-nil-on_body s m h k)

-- After any messages, the session of a user of the server is that of the first message that gave the
-- user's name, whatever later messages with the name come from; the empty name is no user's.
pub on_bodies-first_session :
    (u : Bytes) (ms : List (ℕ × HttpMessage))
    → find u (on_bodies ms init).user_session_map
      ≡ (if is_empty u then none else first_session u ms)
unfolding find
on_bodies-first_session [] ms = find-nil-on_bodies ms init refl
on_bodies-first_session (x ∷ u) ms = find-on_bodies (x ∷ u) ms init refl
