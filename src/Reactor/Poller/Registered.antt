-- ===== src/Reactor/Poller/Registered.antt =====
-- `pollfds_`, `channels_` and the indices of the channels agree.
use libcpp.Prelude.{
  ℕ, ◌+◌, ◌<◌, ◌≡◌, ◌≢◌, refl, ap, sym, inl, inr, true, false, none, some, arith, ◌==◌, ==_iff,
  Bool-cases, Returns,
}
use libcpp.Reactor.Poller.{Poller, add_channel, update_channel}

-- The channel of an entry has its place, and a channel of the map has an entry, with its descriptor.
pub record Inv (p : Poller) : Type 0 where
  pub entries :
      (i : ℕ)
      → i < p.size
      → (ptr : ℕ) × (p.channels (p.pollfds i).fd ≡ some ptr) × ((p.heap ptr).index ≡ some i)
  pub owners :
      (fd ptr : ℕ)
      → p.channels fd ≡ some ptr
      → (i : ℕ) × ((p.heap ptr).index ≡ some i)
        × (i < p.size)
        × ((p.pollfds i).fd ≡ fd)
        × ((p.heap ptr).fd ≡ fd)

pub same : (i j : ℕ) → i ≡ j → (i == j) ≡ true
same i j e = (==_iff i j).1 e

pub other : (i j : ℕ) → i ≢ j → (i == j) ≡ false
other i j n = ground (arith, n)

-- No two entries have one descriptor.
pub same_place :
    (p : Poller)
    → Inv p
    → (i j : ℕ) → i < p.size
    → j < p.size
    → (p.pollfds i).fd ≡ (p.pollfds j).fd
    → i ≡ j
same_place p v i j h k e =
    let (a, ca, ia) = v.entries i h in let (b, cb, ib) = v.entries j k in cc (e, ca, ia, cb, ib)

module _ (ptr : ℕ) (p : Poller) (v : Inv p) (new : (p.heap ptr).index ≡ none)
    (free : p.channels (p.heap ptr).fd ≡ none) where
  other_fd : (fd q : ℕ) → p.channels fd ≡ some q → ((p.heap ptr).fd == fd) ≡ false
  other_fd fd q h = other (p.heap ptr).fd fd λ e. cc (e, h, free)

  other_ptr : (i q : ℕ) → (p.heap q).index ≡ some i → (ptr == q) ≡ false
  other_ptr i q h = other ptr q λ e. cc (e, h, new)

  added-entries :
      (i : ℕ)
      → i < p.size + 1
      → (q : ℕ) × ((add_channel ptr p).channels ((add_channel ptr p).pollfds i).fd ≡ some q)
        × (((add_channel ptr p).heap q).index ≡ some i)
  unfolding add_channel
  added-entries i h = elim (Bool-cases (p.size == i)) [
    | inl e ↦ (
      ptr,
      rw (e, same (p.heap ptr).fd (p.heap ptr).fd refl) refl,
      rw (same ptr ptr refl) (ap some (ground (arith, e))),
    )
    | inr e ↦
        let (q, c, x) = v.entries i (ground (arith, e, h)) in
        (q, rw (e, other_fd (p.pollfds i).fd q c) c, rw (other_ptr i q x) x)
  ]

  added-owners :
      (fd q : ℕ)
      → (add_channel ptr p).channels fd ≡ some q
      → (i : ℕ) × (((add_channel ptr p).heap q).index ≡ some i)
        × (i < p.size + 1)
        × (((add_channel ptr p).pollfds i).fd ≡ fd)
        × (((add_channel ptr p).heap q).fd ≡ fd)
  unfolding add_channel
  added-owners fd q h = elim (Bool-cases ((p.heap ptr).fd == fd)) [
    | inl e ↦
        let t : ptr ≡ q = cc (rw e at h) in
        let f : (p.heap ptr).fd ≡ fd = (==_iff _ _).0 e in
        (
          p.size,
          rw (same ptr q t) (ap some (omega arith)),
          omega arith,
          rw (same p.size p.size refl) f,
          rw (same ptr q t) f,
        )
    | inr e ↦
        let (i, x, low, f, g) = v.owners fd q (rw e at h) in
        let n : (p.size == i) ≡ false = ground (arith, low) in
        (i, rw (other_ptr i q x) x, omega (arith, low), rw n f, rw (other_ptr i q x) g)
  ]

  -- A channel that has no place, and whose descriptor no other has, gets one by `updateChannel`, and is
  -- found by its descriptor; all others keep theirs.
  pub add_channel-Inv :
      Returns
        (λ p'.
          Inv p'
          × (p'.channels (p.heap ptr).fd ≡ some ptr)
          × ((fd : ℕ) → fd ≢ (p.heap ptr).fd → p'.channels fd ≡ p.channels fd))
        (update_channel true ptr p)
  unfolding update_channel add_channel
  add_channel-Inv = rw new (
    record { entries = added-entries; owners = added-owners },
    rw (same (p.heap ptr).fd (p.heap ptr).fd refl) refl,
    λ fd n. rw (other (p.heap ptr).fd fd λ e. n (sym e)) refl,
  )
