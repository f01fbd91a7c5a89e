-- ===== src/Reactor/Poller/Tests.antt =====
-- A poller with one channel at address 5, for descriptor 9.
use libcpp.Prelude.{
  ℕ, ◌+◌, ◌≡◌, ◌≢◌, refl, ap, inl, inr, true, false, none, some, [], ◌∷◌, map, arith, ◌==◌,
  if◌then◌else◌, Bool-cases, ==_iff, Returns,
}
use libcpp.Reactor.Poller.{Poller, PollChannel, remove_channel, poll}
use libcpp.Reactor.Poller.Registered.{Inv}
use libcpp.Reactor.Poller.Removed.{remove_channel-Inv}
use libcpp.Reactor.Poller.Polled.{poll_lem}

abbrev channel : PollChannel
channel = record { fd = 9; events = 3; revents = 0; index = some 0 }

abbrev one : Poller
one = record {
  pollfds = λ i. record { fd = 9; ignored = false; events = 3; revents = 0 };
  size = 1;
  channels = λ fd. if fd == 9 then some 5 else none;
  heap = λ ptr.
      if ptr == 5 then channel else record { fd = ptr; events = 1; revents = 0; index = none };
}

one-Inv : Inv one
one-Inv = record {
  entries = λ i h. (5, refl, let e : 0 ≡ i = omega (arith, h) in ap some e);
  owners = λ fd ptr h. elim (Bool-cases (fd == 9)) [
    | inl e ↦
        let t : 5 ≡ ptr = cc (rw e at h) in
        let f : 9 ≡ fd = omega (arith, (==_iff fd 9).0 e) in rw (← t) (0, refl, omega arith, f, f)
    | inr e ↦ absurd (let k : none ≡ some ptr = rw e at h in cc)
  ];
}

remove_channel-Inv_example :
    Returns
      (λ p'.
        Inv p'
        × (p'.size + 1 ≡ 1)
        × (p'.channels 9 ≡ none)
        × ((fd : ℕ) → fd ≢ 9 → p'.channels fd ≡ one.channels fd))
      (remove_channel true 5 one)
remove_channel-Inv_example = remove_channel-Inv 5 0 one one-Inv refl refl

poll_lem_example :
    Returns (λ (l, q). map one.channels (9 ∷ []) ≡ map some l) (poll (some 1) (λ i. 1) one)
poll_lem_example = poll_lem one (λ i. 1) one-Inv λ j h k. refl
