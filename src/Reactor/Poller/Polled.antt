-- ===== src/Reactor/Poller/Polled.antt =====
-- Which channels `poll` finds.
use libcpp.Prelude.{
  ℕ, zero, suc, ◌+◌, ◌-◌, ◌%◌, ◌^◌, ◌≤◌, ◌<◌, ◌≡◌, refl, ap, inl, inr, true, false, Option, some,
  List, [], ◌∷◌, map, length, arith, ltb, ◌==◌, ==_iff, if◌then◌else◌, ◌>>=◌, Bool-cases, Returns,
  Returns-bind,
}
use libcpp.Reactor.EPoller.{update_at}
use libcpp.Reactor.Poller.{
  PollChannel, PollFd, Poller, update_channel, fill_from, fill_active_channels, poll,
}
use libcpp.Reactor.Poller.Registered.{Inv}

-- The descriptors of the `n` entries from `i` on that have events.
abbrev pub ready : (ℕ → PollFd) → ℕ → ℕ → List ℕ
ready pollfds zero i = []
ready pollfds (suc n) i =
    let rest = ready pollfds n (i + 1) in
    if ltb 0 (pollfds i).revents then (pollfds i).fd ∷ rest else rest

none_left : (l : List ℕ) → length l ≡ 0 → l ≡ []
none_left [] e = refl
none_left (x ∷ l) e = absurd (omega (arith, e))

module _ (pollfds : ℕ → PollFd) (channels : ℕ → Option ℕ) (size : ℕ)
    (known : (j : ℕ) → j < size → (ptr : ℕ) × (channels (pollfds j).fd ≡ some ptr))
    (open_ : (j : ℕ) → j < size → 0 < (pollfds j).revents → (pollfds j).ignored ≡ false) where
  abbrev with_heap : (ℕ → PollChannel) → Poller
  with_heap heap = record { pollfds = pollfds; size = size; channels = channels; heap = heap }

  fill_lem :
      (n i active : ℕ) (heap : ℕ → PollChannel)
      → i + n ≤ size
      → active ≡ length (ready pollfds n i)
      → Returns
          (λ (l, q). map channels (ready pollfds n i) ≡ map some l)
          (fill_from n i active (with_heap heap))
  unfolding fill_from
  fill_lem zero i active heap h e = refl
  fill_lem (suc n) i active heap h e = elim (Bool-cases (ltb 0 (pollfds i).revents)) [
    | inr miss ↦ rw miss (
        Returns-bind _ _ (fill_from n (i + 1) active (with_heap heap)) _
          (fill_lem n (i + 1) active heap (omega (arith, h)) (rw miss at e)) λ r x. x)
    | inl hit ↦
        let (ptr, c) = known i (omega (arith, h)) in
        let o : (pollfds i).ignored ≡ false = open_ i (omega (arith, h)) (ground (arith, hit)) in
        let e' : active ≡ suc (length (ready pollfds n (i + 1))) = rw hit at e in
        elim (Bool-cases (active - 1 == 0)) [
          | inl last ↦
              rw (hit, o, c, last, none_left (ready pollfds n (i + 1)) (ground (arith, last, e')))
                refl
          | inr more ↦
              rw (hit, o, c, more)
                (Returns-bind _ _
                  (fill_from n (i + 1) (active - 1) (
                    with_heap
                      (update_at heap ptr (record (heap ptr) { revents = (pollfds i).revents }))))
                  _ (fill_lem n (i + 1) (active - 1) _ (omega (arith, h)) (omega (arith, e')))
                  λ r x. ap (λ l. some ptr ∷ l) x)
        ]
  ]

-- `poll` when poll(2) gives the events of each entry, and their number: it finds exactly the channels of
-- the descriptors that have events, in the order of the entries, and follows no null pointer. Entries that
-- are ignored have no events.
pub poll_lem :
    (p : Poller) (revents : ℕ → ℕ)
    → Inv p
    → ((j : ℕ) → j < p.size → 0 < revents j → (p.pollfds j).ignored ≡ false)
    → let fds = ready (λ i. record (p.pollfds i) { revents = revents i }) p.size 0 in
      Returns (λ (l, q). map p.channels fds ≡ map some l) (poll (some (length fds)) revents p)
unfolding poll fill_active_channels
poll_lem p revents v quiet =
    let pollfds : ℕ → PollFd = λ i. record (p.pollfds i) { revents = revents i } in
    elim (Bool-cases (ltb 0 (length (ready pollfds p.size 0)))) [
      | inl some_ready ↦ rw some_ready (
          fill_lem pollfds p.channels p.size (λ j h. ((v.entries j h).0, (v.entries j h).1)) quiet
            p.size 0 _ p.heap (omega arith) refl)
      | inr none_ready ↦
          rw (none_ready, none_left (ready pollfds p.size 0) (ground (arith, none_ready))) refl
    ]

abbrev pub with_events : ℕ → ℕ → Poller → Poller
with_events ptr events p = record p {
  heap = update_at p.heap ptr (record (p.heap ptr) { events = events });
}

-- A channel that has a place, and is not ignored, is ignored by poll(2) after its events were all
-- disabled and others enabled, although its entry then asks for these.
pub disabled_for_ever :
    (ptr idx events : ℕ) (p : Poller)
    → (p.heap ptr).index ≡ some idx
    → idx < p.size
    → (p.pollfds idx).ignored ≡ false
    → 0 < events
    → Returns
        (λ q. ((q.pollfds idx).ignored ≡ true) × ((q.pollfds idx).events ≡ events % 2 ^ 16))
        (update_channel true ptr (with_events ptr 0 p) >>= λ q.
          update_channel true ptr (with_events ptr events q))
unfolding update_channel
disabled_for_ever ptr idx events p at low o pos =
    let inside : ltb idx p.size ≡ true = ground (arith, low) in
    let here : (ptr == ptr) ≡ true = (==_iff ptr ptr).1 refl in
    let there : (idx == idx) ≡ true = (==_iff idx idx).1 refl in
    let wanted : (events == 0) ≡ false = ground (arith, pos) in
    rw (here, at, inside) (rw (here, inside) (rw there (rw here (rw (wanted, o) (refl, refl)))))
