-- ===== src/Reactor/EPoller/Sync.antt =====
-- The indices of the channels and the kernel's interest list agree.
use libcpp.Prelude.{
  ℕ, ◌≡◌, refl, sym, ap, subst, ◌∙◌, inl, inr, ◌⊎◌, Bool, true, false, Option, none, some, ◌==◌,
  ==_iff, if◌then◌else◌, ◌>>=◌, Bool-cases, Returns,
}
use libcpp.Reactor.Channel.{Index, new, added, deleted, is_none_event, set_index}
use libcpp.Reactor.EPoller.{
  Epoll, EPoller, CtlOp, ctl_add, ctl_mod, ctl_del, registration, update_at, update, mark,
  update_channel, remove_channel,
}

-- What the index of the channel at `ptr` says of the registration of its descriptor.
abbrev pub Sync : Index → Option (ℕ × ℕ) → ℕ → Type 0
Sync new w ptr = w ≡ none
Sync deleted w ptr = w ≡ none
Sync added w ptr = (events : ℕ) × (w ≡ some (events, ptr))

module _ (k : Epoll) (live : ℕ → Bool) where
  -- Live channels agree with the kernel, and no two of them have one descriptor.
  pub record Inv (e : EPoller k) : Type 0 where
    pub sync : (p : ℕ) → live p ≡ true → Sync (e.heap p).index (k.watched e.kernel (e.heap p).fd) p
    pub distinct : (p q : ℕ) → live p ≡ true → live q ≡ true → (e.heap p).fd ≡ (e.heap q).fd → p ≡ q

  -- A change of one channel's index and registration together.
  record Change (e : EPoller k) (ptr : ℕ) (index : Index) (w : Option (ℕ × ℕ)) (e' : EPoller k)
      : Type 0 where
    watched' :
        (fd : ℕ)
        → k.watched e'.kernel fd ≡ (if (e.heap ptr).fd == fd then w else k.watched e.kernel fd)
    fds : (q : ℕ) → (e'.heap q).fd ≡ (e.heap q).fd
    indices : (q : ℕ) → (e'.heap q).index ≡ (if ptr == q then index else (e.heap q).index)
    agree : Sync index w ptr

  module _ {e e' : EPoller k} (ptr : ℕ) (index : Index) (w : Option (ℕ × ℕ)) (inv : Inv e)
      (alive : live ptr ≡ true) (c : Change e ptr index w e') where
    same_fd : (p : ℕ) → (ptr == p) ≡ true → ((e.heap ptr).fd == (e.heap p).fd) ≡ true
    same_fd p t = (==_iff _ _).1 (ap (λ q. (e.heap q).fd) ((==_iff ptr p).0 t))

    other_fd :
        (p : ℕ) → live p ≡ true → (ptr == p) ≡ false → ((e.heap ptr).fd == (e.heap p).fd) ≡ false
    other_fd p h t = elim (Bool-cases ((e.heap ptr).fd == (e.heap p).fd)) [
      | inl same ↦
          let meet : (ptr == p) ≡ true =
            (==_iff ptr p).1 (inv.distinct ptr p alive h ((==_iff _ _).0 same)) in
          cc
      | inr other ↦ other
    ]

    Change-Sync :
        (p : ℕ) → live p ≡ true → Sync (e'.heap p).index (k.watched e'.kernel (e'.heap p).fd) p
    Change-Sync p h = elim (Bool-cases (ptr == p)) [
      | inl t ↦
          rw (c.indices p, c.fds p, c.watched' (e.heap p).fd, t, same_fd p t)
            (subst (λ q. Sync index w q) ((==_iff ptr p).0 t) c.agree)
      | inr t ↦
          rw (c.indices p, c.fds p, c.watched' (e.heap p).fd, t, other_fd p h t) (inv.sync p h)
    ]

    Change-Inv : Inv e'
    Change-Inv = record {
      sync = Change-Sync;
      distinct = λ p q hp hq h. inv.distinct p q hp hq (sym (c.fds p) ∙ h ∙ c.fds q);
    }

  -- An operation that succeeds never aborts.
  update-eq :
      (op : CtlOp) (ptr : ℕ) (e : EPoller k)
      → (k.ctl e.kernel op (e.heap ptr).fd (e.heap ptr).events ptr).1 ≡ true
      → update k op ptr e
        ≡ some (record e { kernel = (k.ctl e.kernel op (e.heap ptr).fd (e.heap ptr).events ptr).0 })
  unfolding update
  update-eq ctl_add ptr e h = rw h
  update-eq ctl_mod ptr e h = rw h
  update-eq ctl_del ptr e h = refl

  eq_self : (n : ℕ) → (n == n) ≡ true
  eq_self n = (==_iff n n).1 refl

  -- The poller with another index for one channel, and another map.
  marked : EPoller k → ℕ → Index → (ℕ → Option ℕ) → EPoller k
  marked e ptr index channels = record e {
    channels = channels;
    heap = update_at e.heap ptr (set_index (e.heap ptr) index);
  }

  marked-fd :
      (e : EPoller k) (ptr : ℕ) (index : Index) (m : ℕ → Option ℕ) (q : ℕ)
      → ((marked e ptr index m).heap q).fd ≡ (e.heap q).fd
  unfolding marked set_index
  marked-fd e ptr index m q = elim (Bool-cases (ptr == q)) [
    | inl t ↦ rw t (ap (λ p. (e.heap p).fd) ((==_iff ptr q).0 t))
    | inr t ↦ rw t
  ]

  marked-events :
      (e : EPoller k) (ptr : ℕ) (index : Index) (m : ℕ → Option ℕ)
      → ((marked e ptr index m).heap ptr).events ≡ (e.heap ptr).events
  unfolding marked set_index
  marked-events e ptr index m = rw (eq_self ptr)

  marked-index :
      (e : EPoller k) (ptr : ℕ) (index : Index) (m : ℕ → Option ℕ) (q : ℕ)
      → ((marked e ptr index m).heap q).index ≡ (if ptr == q then index else (e.heap q).index)
  unfolding marked set_index
  marked-index e ptr index m q = elim (Bool-cases (ptr == q)) [ inl t ↦ rw t | inr t ↦ rw t ]

  -- The invariant holds and `ptr`'s descriptor is registered as `w` says.
  pub record Registered (e : EPoller k) (ptr : ℕ) (w : Option (ℕ × ℕ)) (e' : EPoller k)
      : Type 0 where
    pub inv : Inv e'
    pub registered : k.watched e'.kernel (e.heap ptr).fd ≡ w

  module _ (e : EPoller k) (ptr : ℕ) (inv : Inv e) (alive : live ptr ≡ true) where
    Change-Registered :
        (op : CtlOp) (index : Index) (m : ℕ → Option ℕ)
        → (k.ctl e.kernel op (e.heap ptr).fd (e.heap ptr).events ptr).1 ≡ true
        → Sync index (registration op (e.heap ptr).events ptr) ptr
        → Registered e ptr
            (registration op (e.heap ptr).events ptr)
            (record (marked e ptr index m) {
              kernel = (k.ctl e.kernel op (e.heap ptr).fd (e.heap ptr).events ptr).0;
            })
    Change-Registered op index m h agree = record {
      inv = Change-Inv ptr index (registration op (e.heap ptr).events ptr) inv alive (record {
        watched' = λ fd. k.watched-ctl e.kernel op (e.heap ptr).fd (e.heap ptr).events ptr fd h;
        fds = marked-fd e ptr index m;
        indices = marked-index e ptr index m;
        agree = agree;
      });
      registered =
          k.watched-ctl e.kernel op (e.heap ptr).fd (e.heap ptr).events ptr (e.heap ptr).fd h
          ∙ (rw (eq_self (e.heap ptr).fd));
    }

    -- The kernel refuses an operation on the channel's descriptor.
    abbrev pub Fails : CtlOp → Type 0
    Fails op = (k.ctl e.kernel op (e.heap ptr).fd (e.heap ptr).events ptr).1 ≡ false

    -- Either the operation fails and the program ends, or it does what it should.
    abbrev pub Attempt : CtlOp → Option (ℕ × ℕ) → Option (EPoller k) → Type 0
    Attempt op w r = ((r ≡ none) × Fails op) ⊎ Returns (Registered e ptr w) r

    added_to :
        (m : ℕ → Option ℕ)
        → Attempt ctl_add
            (some ((e.heap ptr).events, ptr))
            (update k ctl_add ptr (marked e ptr added m))
    unfolding marked update
    added_to m =
        elim (Bool-cases (k.ctl e.kernel ctl_add (e.heap ptr).fd (e.heap ptr).events ptr).1) [
          | inl t ↦ inr (
              rw (marked-fd e ptr added m ptr, marked-events e ptr added m, t)
                (Change-Registered ctl_add added m t ((e.heap ptr).events, refl)))
          | inr t ↦ inl (rw (marked-fd e ptr added m ptr, marked-events e ptr added m, t), t)
        ]

    deleted_from :
        (w : ℕ × ℕ)
        → k.watched e.kernel (e.heap ptr).fd ≡ some w
        → Returns
            (Registered e ptr none)
            (update k ctl_del ptr e >>= λ e'. some (mark k ptr deleted e'))
    unfolding mark marked
    deleted_from w h =
        let t = k.deletes e.kernel (e.heap ptr).fd (e.heap ptr).events ptr w h in
        rw (update-eq ctl_del ptr e t) (Change-Registered ctl_del deleted e.channels t refl)

    modified :
        (e.heap ptr).index ≡ added
        → Attempt ctl_mod (some ((e.heap ptr).events, ptr)) (update k ctl_mod ptr e)
    unfolding update
    modified i =
        elim (Bool-cases (k.ctl e.kernel ctl_mod (e.heap ptr).fd (e.heap ptr).events ptr).1) [
          | inl t ↦ inr (
              rw t (record {
                inv = Change-Inv ptr added (some ((e.heap ptr).events, ptr)) inv alive (record {
                  watched' = λ fd.
                      k.watched-ctl e.kernel ctl_mod (e.heap ptr).fd (e.heap ptr).events ptr fd t;
                  fds = λ q. refl;
                  indices = λ q. elim (Bool-cases (ptr == q)) [
                    | inl same ↦
                        rw same (ap (λ p. (e.heap p).index) (sym ((==_iff ptr q).0 same)) ∙ i)
                    | inr other ↦ rw other
                  ];
                  agree = ((e.heap ptr).events, refl);
                });
                registered =
                    k.watched-ctl e.kernel ctl_mod (e.heap ptr).fd (e.heap ptr).events ptr
                      (e.heap ptr).fd t
                    ∙ (rw (eq_self (e.heap ptr).fd));
              }))
          | inr t ↦ inl (rw t, t)
        ]

    -- What `update_channel` leaves, by the index and by whether the channel wants no event.
    abbrev pub Outcome : Index → Bool → Option (EPoller k) → Type 0
    Outcome added true r = Returns (Registered e ptr none) r
    Outcome added false r = Attempt ctl_mod (some ((e.heap ptr).events, ptr)) r
    Outcome new b r = Attempt ctl_add (some ((e.heap ptr).events, ptr)) r
    Outcome deleted b r = Attempt ctl_add (some ((e.heap ptr).events, ptr)) r

    update_by :
        (i : Index)
        → (e.heap ptr).index ≡ i
        → Outcome i (is_none_event (e.heap ptr)) (update_channel k true ptr e)
    unfolding update_channel mark marked is_none_event
    update_by new i = rw i (added_to _)
    update_by deleted i = rw i (added_to _)
    update_by added i = elim (Bool-cases (is_none_event (e.heap ptr))) [
      | inl t ↦ rw (i, t) (deleted_from _ (rw i at (inv.sync ptr alive)).1)
      | inr t ↦ rw (i, t) (modified i)
    ]

    -- While the channels agree with the kernel and no two have one descriptor, `updateChannel` of a
    -- live channel in the loop's thread: a registered channel that wants no event any more is always
    -- taken from the kernel; any other is added, or modified if it was registered, and unless that
    -- `epoll_ctl` fails, which ends the program, the kernel watches its descriptor for exactly its
    -- events. The channels stay in step with the kernel.
    pub update_channel-Outcome :
        Outcome (e.heap ptr).index (is_none_event (e.heap ptr)) (update_channel k true ptr e)
    update_channel-Outcome = update_by (e.heap ptr).index refl

    unwatched :
        (m : ℕ → Option ℕ)
        → k.watched e.kernel (e.heap ptr).fd ≡ none
        → Registered e ptr none (marked e ptr new m)
    unfolding marked
    unwatched m h = record {
      inv = Change-Inv ptr new none inv alive (record {
        watched' = λ fd. elim (Bool-cases ((e.heap ptr).fd == fd)) [
          | inl t ↦ rw t (ap (k.watched e.kernel) (sym ((==_iff _ _).0 t)) ∙ h)
          | inr t ↦ rw t
        ];
        fds = marked-fd e ptr new m;
        indices = marked-index e ptr new m;
        agree = refl;
      });
      registered = h;
    }

    remove_by :
        (i : Index)
        → (e.heap ptr).index ≡ i
        → Returns (Registered e ptr none) (remove_channel k true ptr e)
    unfolding remove_channel mark marked
    remove_by new i = rw i (unwatched _ (rw i at (inv.sync ptr alive)))
    remove_by deleted i = rw i (unwatched _ (rw i at (inv.sync ptr alive)))
    remove_by added i =
        let h = (rw i at (inv.sync ptr alive)).1 in
        let t = k.deletes e.kernel (e.heap ptr).fd (e.heap ptr).events ptr _ h in
        rw
          (
            i,
            update-eq ctl_del ptr
                (record e { channels = update_at e.channels (e.heap ptr).fd none }) t,
          )
          (Change-Registered ctl_del new _ t refl)

    -- While the channels agree with the kernel and no two have one descriptor, `removeChannel` of a
    -- live channel in the loop's thread never aborts, whatever the state of the channel, and
    -- afterwards the kernel does not watch its descriptor; the other channels stay in step.
    pub remove_channel-Registered : Returns (Registered e ptr none) (remove_channel k true ptr e)
    remove_channel-Registered = remove_by (e.heap ptr).index refl
