-- ===== src/Reactor/Poller/Removed.antt =====
-- `removeChannel` of src/reactor/Poller.cc: the last entry takes the place of the removed one.
use libcpp.Prelude.{
  ℕ, ◌+◌, ◌-◌, ◌<◌, ◌≡◌, ◌≢◌, refl, ◌∙◌, ap, sym, subst, inl, inr, true, false, none, some, arith,
  ltb, ◌==◌, ==_iff, Bool-cases, Returns,
}
use libcpp.Reactor.EPoller.{update_at}
use libcpp.Reactor.Poller.{Poller, remove_channel, set_index}
use libcpp.Reactor.Poller.Registered.{Inv, same, other, same_place}

module _ (ptr idx : ℕ) (p : Poller) (v : Inv p) (found : p.channels (p.heap ptr).fd ≡ some ptr)
    (at : (p.heap ptr).index ≡ some idx) where
  -- Where the channel stands.
  place : (idx < p.size) × ((p.pollfds idx).fd ≡ (p.heap ptr).fd)
  place =
      let (i, x, low, f, g) = v.owners (p.heap ptr).fd ptr found in
      let e : i ≡ idx = cc (x, at) in
      (subst (λ k. k < p.size) e low, subst (λ k. (p.pollfds k).fd ≡ (p.heap ptr).fd) e f)

  other_entry : (i : ℕ) → i < p.size → idx ≢ i → ((p.heap ptr).fd == (p.pollfds i).fd) ≡ false
  other_entry i h n = other _ _ λ e. n (same_place p v idx i place.0 h (place.1 ∙ e))

  forgotten : Poller
  forgotten = record p { channels = update_at p.channels (p.heap ptr).fd none }

  owner :
      (fd q : ℕ)
      → forgotten.channels fd ≡ some q
      → (p.channels fd ≡ some q) × ((p.heap ptr).fd ≢ fd)
  unfolding forgotten
  owner fd q h = elim (Bool-cases ((p.heap ptr).fd == fd)) [
    | inl e ↦ absurd (let k : none ≡ some q = rw e at h in cc)
    | inr e ↦ (rw e at h, λ f. let k : ((p.heap ptr).fd == fd) ≡ true = same _ _ f in cc (e, k))
  ]

  elsewhere : (i fd : ℕ) → (p.pollfds i).fd ≡ fd → (p.heap ptr).fd ≢ fd → idx ≢ i
  elsewhere i fd f n e = n (cc (e, f, place.1))

  popped-Inv : idx + 1 ≡ p.size → Inv (record forgotten { size = p.size - 1 })
  unfolding forgotten
  popped-Inv last = record {
    entries = λ i h.
        (let (q, c, x) = v.entries i (omega (arith, h)) in
          (q, rw (other_entry i (omega (arith, h)) λ e. absurd (omega (arith, e, h, last))) c, x));
    owners = λ fd q h.
        (let (c, n) = owner fd q h in
          let (i, x, low, f, g) = v.owners fd q c in
          let d : idx ≢ i = elsewhere i fd f n in (i, x, ground (arith, low, d, last), f, g));
  }

  module _ (q0 : ℕ) (c0 : p.channels (p.pollfds (p.size - 1)).fd ≡ some q0)
      (x0 : (p.heap q0).index ≡ some (p.size - 1)) (more : idx + 1 ≢ p.size) where
    moved : Poller
    unfolding forgotten
    moved = set_index q0 idx (record forgotten {
      pollfds = update_at p.pollfds idx (p.pollfds (p.size - 1));
      size = p.size - 1;
    })

    low_place : idx < p.size - 1
    low_place = ground (arith, more, place.0)

    moved-entries :
        (i : ℕ)
        → i < p.size - 1
        → (q : ℕ) × (moved.channels (moved.pollfds i).fd ≡ some q) × ((moved.heap q).index ≡ some i)
    unfolding moved forgotten
    moved-entries i h = elim (Bool-cases (idx == i)) [
      | inl e ↦ (
        q0,
        rw
            (
              e,
              other_entry (p.size - 1) (omega (arith, h)) λ t. absurd (omega (arith, t, low_place)),
            )
            c0,
        rw (same q0 q0 refl) (ap some ((==_iff idx i).0 e)),
      )
      | inr e ↦
          let (q, c, x) = v.entries i (omega (arith, h)) in
          let n : (q0 == q) ≡ false =
            other q0 q
              (λ t. let w : i ≡ p.size - 1 = cc (t, x, x0) in absurd (omega (arith, w, h))) in
          (q, rw (e, other_entry i (omega (arith, h)) λ t. cc (e, same idx i t)) c, rw n x)
    ]

    moved-owners :
        (fd q : ℕ)
        → moved.channels fd ≡ some q
        → (i : ℕ) × ((moved.heap q).index ≡ some i)
          × (i < p.size - 1)
          × ((moved.pollfds i).fd ≡ fd)
          × ((moved.heap q).fd ≡ fd)
    unfolding moved forgotten
    moved-owners fd q h =
        let (c, n) = owner fd q h in
        let (i, x, low, f, g) = v.owners fd q c in
        elim (Bool-cases (q0 == q)) [
          | inl e ↦
              let t : q0 ≡ q = (==_iff q0 q).0 e in
              let w : p.size - 1 ≡ i = cc (t, x, x0) in
              (
                idx,
                rw e refl,
                low_place,
                rw (same idx idx refl) (ap (λ k. (p.pollfds k).fd) w ∙ f),
                rw e (ap (λ k. (p.heap k).fd) t ∙ g),
              )
          | inr e ↦
              let d : (idx == i) ≡ false = other idx i (elsewhere i fd f n) in
              let b : p.size - 1 ≢ i = λ w.
                (let k : (p.pollfds (p.size - 1)).fd ≡ fd = ap (λ k. (p.pollfds k).fd) w ∙ f in
                  let z : (q0 == q) ≡ true = same q0 q (cc (k, c, c0)) in cc (e, z)) in
              (i, rw e x, ground (arith, low, b), rw d f, rw e g)
        ]

  -- `removeChannel` of a channel that has a place, in a poller whose entries, map and indices
  -- agree, fails in nothing: its descriptor is no more in the map, there is one entry less, the
  -- channels of all other descriptors stay in the map, and entries, map and indices agree again.
  pub remove_channel-Inv :
      Returns
        (λ p'.
          Inv p'
          × (p'.size + 1 ≡ p.size)
          × (p'.channels (p.heap ptr).fd ≡ none)
          × ((fd : ℕ) → fd ≢ (p.heap ptr).fd → p'.channels fd ≡ p.channels fd))
        (remove_channel true ptr p)
  unfolding remove_channel moved forgotten
  remove_channel-Inv = elim (Bool-cases (idx + 1 == p.size)) [
    | inl last ↦
        rw (at, last)
          (
            popped-Inv ((==_iff _ _).0 last),
            omega (arith, place.0),
            rw (same (p.heap ptr).fd (p.heap ptr).fd refl) refl,
            λ fd n. rw (other (p.heap ptr).fd fd λ e. n (sym e)) refl,
          )
    | inr last ↦
        let (q0, c0, x0) = v.entries (p.size - 1) (omega (arith, place.0)) in
        let more : idx + 1 ≢ p.size = λ e. (let k = same (idx + 1) p.size e in cc (k, last)) in
        let inside : ltb idx p.size ≡ true = ground (arith, place.0) in
        rw
          (
            at,
            last,
            inside,
            other_entry (p.size - 1) (omega (arith, place.0))
                (λ t. absurd (omega (arith, t, low_place q0 c0 x0 more))),
            c0,
          )
          (
            record { entries = moved-entries q0 c0 x0 more; owners = moved-owners q0 c0 x0 more },
            omega (arith, place.0),
            rw (same (p.heap ptr).fd (p.heap ptr).fd refl) refl,
            λ fd n. rw (other (p.heap ptr).fd fd λ e. n (sym e)) refl,
          )
  ]
