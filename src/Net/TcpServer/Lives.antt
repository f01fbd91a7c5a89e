-- ===== src/Net/TcpServer/Lives.antt =====
-- The lives of a server's connections, over the server's loop and the loops of the connections.
use libcpp.Prelude.{
  ℕ, ◌≤◌, ◌≡◌, ◌≢◌, refl, ap, sym, ◌∙◌, Bool, true, false, not, ◌&&◌, List, [], ◌∷◌, arith, ◌==◌,
  ==_iff, if◌then◌else◌, Returns, Bool-cases, inl, inr,
}
use libcpp.Net.TcpServer.{TcpServer, init, has, erase, add, forget, remove_connection_in_loop}

-- `fresh` waits for `connectEstablished`, `closing` for `removeConnectionInLoop`, `removed` for
-- `connectDestroyed`.
pub data Life : Type 0 where
  unborn fresh live closing removed destroyed : Life

abbrev pub is_kept : Life → Bool
is_kept unborn = false
is_kept fresh = true
is_kept live = true
is_kept closing = true
is_kept removed = false
is_kept destroyed = false

pub record System : Type 0 where
  pub server : TcpServer
  pub lives : ℕ → Life

abbrev pub becomes : (ℕ → Life) → ℕ → Life → ℕ → Life
becomes lives id life j = if id == j then life else lives j

-- A connection is closed once, since `handleClose` disables all its events.
pub data Step (s : System) : System → Type 0 where
  accepts :
      Step s (record { server = add s.server; lives = becomes s.lives s.server.next_conn_id fresh })
  establishes :
      {id : ℕ} → s.lives id ≡ fresh → Step s (record s { lives = becomes s.lives id live })
  closes : {id : ℕ} → s.lives id ≡ live → Step s (record s { lives = becomes s.lives id closing })
  removes :
      {id : ℕ}
      → s.lives id ≡ closing
      → Step s (record { server = forget id s.server; lives = becomes s.lives id removed })
  destroys :
      {id : ℕ} → s.lives id ≡ removed → Step s (record s { lives = becomes s.lives id destroyed })

pub data Reach : System → Type 0 where
  start : Reach (record { server = init; lives = λ id. unborn })
  later : {s t : System} → Reach s → Step s t → Reach t

-- No connection of the list occurs in it again.
abbrev pub IsDistinct : List ℕ → Type 0
IsDistinct [] = Unit {0}
IsDistinct (x ∷ l) = (has x l ≡ false) × IsDistinct l

record Inv (s : System) : Type 0 where
  kept : (id : ℕ) → has id s.server.connections ≡ is_kept (s.lives id)
  unused : (id : ℕ) → s.server.next_conn_id ≤ id → s.lives id ≡ unborn
  distinct : IsDistinct s.server.connections

has-erase : (x y : ℕ) (l : List ℕ) → IsDistinct l → has x (erase y l) ≡ (not (y == x) && has x l)
unfolding has erase
has-erase x y [] d = ground arith
has-erase x y (z ∷ l) d = ground (arith, has-erase x y l d.1, d.0)

erase-IsDistinct : (y : ℕ) (l : List ℕ) → IsDistinct l → IsDistinct (erase y l)
unfolding erase
erase-IsDistinct y [] d = tt
erase-IsDistinct y (z ∷ l) d =
    ground (arith, has-erase z y l d.1, d.0, d.1, erase-IsDistinct y l d.1)

eq_sym : (x y : ℕ) → (x == y) ≡ (y == x)
eq_sym x y = ground arith

-- A change of one connection's life that does not touch the map.
lives-Inv :
    {s : System} (id : ℕ) (old new : Life)
    → Inv s
    → s.lives id ≡ old
    → is_kept new ≡ is_kept old
    → old ≢ unborn
    → Inv (record s { lives = becomes s.lives id new })
lives-Inv {s} id old new v e k b = record {
  kept = λ j. elim (Bool-cases (id == j)) [
    | inl t ↦ rw (t, k, sym e) (v.kept j ∙ ap (λ x. is_kept (s.lives x)) (sym ((==_iff id j).0 t)))
    | inr t ↦ rw t (v.kept j)
  ];
  unused = λ j h. elim (Bool-cases (id == j)) [
    | inl t ↦ absurd (b (sym e ∙ ap s.lives ((==_iff id j).0 t) ∙ v.unused j h))
    | inr t ↦ rw t (v.unused j h)
  ];
  distinct = v.distinct;
}

absent : {s : System} → Inv s → has s.server.next_conn_id s.server.connections ≡ false
absent {s} v =
    v.kept s.server.next_conn_id ∙ ap is_kept (v.unused s.server.next_conn_id (omega arith))

accept-Inv :
    {s : System}
    → Inv s
    → Inv (record { server = add s.server; lives = becomes s.lives s.server.next_conn_id fresh })
unfolding add has
accept-Inv {s} v = record {
  kept = λ j. elim (Bool-cases (s.server.next_conn_id == j)) [
    | inl t ↦ rw (absent v, t) refl
    | inr t ↦ rw (absent v, t) (v.kept j)
  ];
  unused = λ j h. elim (Bool-cases (s.server.next_conn_id == j)) [
    | inl t ↦ let never : ⊥ = ground (arith, t, h) in absurd never
    | inr t ↦ rw t (v.unused j (omega (arith, h)))
  ];
  distinct = rw (absent v) (absent v, v.distinct);
}

remove-Inv :
    {s : System} (id : ℕ)
    → Inv s
    → s.lives id ≡ closing
    → Inv (record { server = forget id s.server; lives = becomes s.lives id removed })
unfolding forget
remove-Inv {s} id v e = record {
  kept = λ j.
      has-erase j id s.server.connections v.distinct
      ∙ elim (Bool-cases (id == j)) [ inl t ↦ rw t refl | inr t ↦ rw t (v.kept j) ];
  unused = λ j h. elim (Bool-cases (id == j)) [
    | inl t ↦
        let clash : closing ≡ unborn = sym e ∙ ap s.lives ((==_iff id j).0 t) ∙ v.unused j h in cc
    | inr t ↦ rw t (v.unused j h)
  ];
  distinct = erase-IsDistinct id s.server.connections v.distinct;
}

Step-Inv : {s t : System} → Step s t → Inv s → Inv t
unfolding add forget has
Step-Inv accepts v = accept-Inv v
Step-Inv {s} (establishes {id} e) v = lives-Inv id fresh live v e refl (λ h. cc)
Step-Inv {s} (closes {id} e) v = lives-Inv id live closing v e refl (λ h. cc)
Step-Inv (removes {id} e) v = remove-Inv id v e
Step-Inv {s} (destroys {id} e) v = lives-Inv id removed destroyed v e refl (λ h. cc)

Reach-Inv : {s : System} → Reach s → Inv s
unfolding has
Reach-Inv start = record { kept = λ id. refl; unused = λ id h. refl; distinct = tt }
Reach-Inv (later r st) = Step-Inv st (Reach-Inv r)

-- In every reachable state a connection that waits for its removal is in the map, so that the
-- assertion of `removeConnectionInLoop` holds; and afterwards it is not in the map.
pub remove_connection_in_loop_lem :
    {s : System} (id : ℕ)
    → Reach s
    → s.lives id ≡ closing
    → Returns
        (λ server'. has id server'.connections ≡ false)
        (remove_connection_in_loop true id s.server)
unfolding remove_connection_in_loop forget
remove_connection_in_loop_lem {s} id r h =
    let v = Reach-Inv r in
    rw (v.kept id, h)
      (has-erase id id s.server.connections v.distinct ∙ rw ((==_iff id id).1 refl) refl)

-- In every reachable state the connection that is accepted next has a name that no connection of the
-- server ever had, so that it takes the place of none in the map.
pub new_connection_lem :
    {s : System}
    → Reach s
    → (s.lives s.server.next_conn_id ≡ unborn)
      × (has s.server.next_conn_id s.server.connections ≡ false)
new_connection_lem {s} r =
    let v = Reach-Inv r in
    let u = v.unused s.server.next_conn_id (omega arith) in
    (u, v.kept s.server.next_conn_id ∙ ap is_kept u)
