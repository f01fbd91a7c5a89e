-- ===== src/Thread/SpinLock.antt =====
-- src/thread/SpinLock.h. Any number of threads, one step for each access to the flag. A thread unlocks only
-- what it locked, as users of a lock do.
use libcpp.Prelude.{
  ℕ, ◌≡◌, ◌≢◌, refl, sym, ap, ◌∙◌, inl, inr, Bool, true, false, if◌then◌else◌, ◌==◌, Bool-cases,
  ==_iff,
}

-- Where a thread is: not in the lock's code nor between `lock` and `unlock`; in the loop of `lock`; between the
-- two.
pub data Place : Type 0 where
  outside spinning inside : Place

pub record SpinLock : Type 0 where
  pub lck : Bool
  pub places : ℕ → Place

-- ATOMIC_FLAG_INIT.
abbrev pub init : SpinLock
init = record { lck = false; places = λ t. outside }

abbrev pub becomes : (ℕ → Place) → ℕ → Place → ℕ → Place
becomes places t place u = if t == u then place else places u

-- `test_and_set` of an atomic flag: what it was, and what it then is.
abbrev pub test_and_set : Bool → Bool × Bool
test_and_set old = (old, true)

-- One round of the loop of `lock`.
unfoldable pub lock : ℕ → SpinLock → SpinLock
lock t s =
    let (old, lck) = test_and_set s.lck in
    if old then record s { lck = lck } else record { lck = lck; places = becomes s.places t inside }

unfoldable pub unlock : ℕ → SpinLock → SpinLock
unlock t s = record { lck = false; places = becomes s.places t outside }

pub data Step (s : SpinLock) : SpinLock → Type 0 where
  enters :
      {t : ℕ} → s.places t ≡ outside → Step s (record s { places = becomes s.places t spinning })
  tries : {t : ℕ} → s.places t ≡ spinning → Step s (lock t s)
  leaves : {t : ℕ} → s.places t ≡ inside → Step s (unlock t s)

pub data Reach : SpinLock → Type 0 where
  start : Reach init
  later : {s s' : SpinLock} → Reach s → Step s s' → Reach s'

-- The flag is set while one thread is inside, which `holder` is, and clear while none is.
abbrev Held : SpinLock → Type 0
Held s =
    (holder : ℕ) × (s.lck ≡ true)
    × (s.places holder ≡ inside)
    × ((u : ℕ) → s.places u ≡ inside → u ≡ holder)

abbrev Free : SpinLock → Type 0
Free s = (s.lck ≡ false) × ((u : ℕ) → s.places u ≢ inside)

data Inv (s : SpinLock) : Type 0 where
  held : Held s → Inv s
  free : Free s → Inv s

becomes_other :
    (places : ℕ → Place) (t u : ℕ) (p : Place)
    → p ≢ inside
    → becomes places t p u ≡ inside
    → (places u ≡ inside) × ((t == u) ≡ false)
becomes_other places t u p n h = elim (Bool-cases (t == u)) [
  | inl e ↦ absurd (n (rw e at h))
  | inr e ↦ (rw e at h, e)
]

enters-Inv :
    (s : SpinLock) (t : ℕ)
    → s.places t ≡ outside
    → Inv s
    → Inv (record s { places = becomes s.places t spinning })
enters-Inv s t o (held (holder, l, h, only)) = held (
  holder,
  l,
  elim (Bool-cases (t == holder)) [
    | inl e ↦ absurd (clash (sym o ∙ ap s.places ((==_iff t holder).0 e) ∙ h))
    | inr e ↦ rw e h
  ],
  λ u k. only u (becomes_other s.places t u spinning (λ q. cc) k).0,
)
  where
    clash : outside ≡ inside → ⊥
    clash q = cc
enters-Inv s t o (free (l, none)) =
    free (l, λ u k. none u (becomes_other s.places t u spinning (λ q. cc) k).0)

tries-Inv : (s : SpinLock) (t : ℕ) → s.places t ≡ spinning → Inv s → Inv (lock t s)
unfolding lock
tries-Inv s t o (held (holder, l, h, only)) = rw l (held (holder, refl, h, only))
tries-Inv s t o (free (l, none)) = rw l (
    held (
      t,
      refl,
      rw ((==_iff t t).1 refl) refl,
      λ u k. elim (Bool-cases (t == u)) [
        | inl e ↦ sym ((==_iff t u).0 e)
        | inr e ↦ absurd (none u (rw e at k))
      ],
    ))

leaves-Inv : (s : SpinLock) (t : ℕ) → s.places t ≡ inside → Inv s → Inv (unlock t s)
unfolding unlock
leaves-Inv s t o (held (holder, l, h, only)) = free (
  refl,
  λ u k.
      let (j, e) = becomes_other s.places t u outside (λ q. cc) k in
      cc (e, (==_iff t u).1 (only t o ∙ sym (only u j))),
)
leaves-Inv s t o (free (l, none)) = absurd (none t o)

Reach-Inv : {s : SpinLock} → Reach s → Inv s
Reach-Inv start = free (refl, λ u k. cc)
Reach-Inv (later {s} r (enters {t} o)) = enters-Inv s t o (Reach-Inv r)
Reach-Inv (later {s} r (tries {t} o)) = tries-Inv s t o (Reach-Inv r)
Reach-Inv (later {s} r (leaves {t} o)) = leaves-Inv s t o (Reach-Inv r)

-- In every reachable state at most one thread is between `lock` and `unlock`, and if none is, then any thread
-- that is in the loop of `lock` gets in with its next round.
pub spin_lock_lem :
    {s : SpinLock}
    → Reach s
    → ((t u : ℕ) → s.places t ≡ inside → s.places u ≡ inside → t ≡ u)
      × (((u : ℕ) → s.places u ≢ inside) → (t : ℕ) → (lock t s).places t ≡ inside)
unfolding lock
spin_lock_lem {s} r = elim (Reach-Inv r) [
  | held (holder, l, h, only) ↦ (λ t u i j. only t i ∙ sym (only u j), λ n t. absurd (n holder h))
  | free (l, none) ↦ (λ t u i j. absurd (none t i), λ n t. rw (l, (==_iff t t).1 refl) refl)
]
