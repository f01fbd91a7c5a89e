-- ===== src/Net/TcpServer/Start.antt =====
-- `start` of src/net/TcpServer.cc, called in the loop's thread, where `runInLoop` runs `listen` at once; and the
-- server from there on.
use libcpp.Prelude.{
  ℕ, zero, suc, ◌+◌, ◌<◌, ◌≡◌, refl, sym, ap, ◌∙◌, inl, inr, Bool, true, false, Option, some, List,
  [], ◌∷◌, ◌++◌, leb, ◌==◌, if◌then◌else◌, ◌>>=◌, length, length-append, arith, Bool-cases,
  SysResult, count, replicate, Returns, Returns-bind, ==_iff,
}
use libcpp.Reactor.Channel.{enable_reading}
use libcpp.Net.Socket.{Inet, Accept4, or_die}
use libcpp.Net.Acceptor.{Acceptor, listen}
use libcpp.Net.Acceptor.Served.{Serving, fds, makes, handle_reads, handle_reads-served}
use libcpp.Net.TcpServer.{TcpServer}
use libcpp.Net.TcpServer as TcpServer
use libcpp.Reactor.EventLoopGroup.{EventLoopGroup, spawn, at, get_next_loop, get_next_loops}
use libcpp.Reactor.EventLoopGroup as EventLoopGroup

abbrev pub start_loops : Bool → (ℕ → ℕ) → Serving → Option Serving
start_loops in_loop address s =
    if s.server.started
    then some s
    else (EventLoopGroup.start in_loop address s.loops >>= λ loops.
        some (record s { server = record s.server { started = true }; loops = loops }))

-- `address` has the loop of each thread, and `listened` is what listen returns.
unfoldable pub start : Bool → (ℕ → ℕ) → SysResult → Acceptor × Serving → Option (Acceptor × Serving)
start in_loop address listened (a, s) = do
  s' ← start_loops in_loop address s
  a' ← if a.listening then some a else listen in_loop listened a
  some (a', s')

-- A server as it is made, for `n` threads, with its acceptor.
abbrev pub made : ℕ → Acceptor → Acceptor × Serving
made n a = (a, record { server = TcpServer.init; loops = EventLoopGroup.init n; made = [] })

-- So many loops, from that of thread `i` on, each thread in turn.
abbrev pub turns : (ℕ → ℕ) → ℕ → ℕ → ℕ → List ℕ
turns address n i zero = []
turns address n i (suc k) = address i ∷ turns address n (if leb n (i + 1) then 0 else i + 1) k

-- The loops of the first `k` connections; without threads, the server's own.
abbrev pub io_loops : (ℕ → ℕ) → ℕ → ℕ → ℕ → List ℕ
io_loops address n base k = if n == 0 then replicate k base else turns address n 0 k

length-spawn : (address : ℕ → ℕ) (n : ℕ) → length (spawn address n) ≡ n
unfolding spawn
length-spawn address zero = refl
length-spawn address (suc n) =
    omega (arith, length-append (spawn address n) (address n ∷ []), length-spawn address n)

at-first : (l k : List ℕ) (i : ℕ) → i < length l → at (l ++ k) i ≡ at l i
at-first [] k i h = absurd (omega arith)
at-first (x ∷ l) k zero h = refl
at-first (x ∷ l) k (suc i) h = at-first l k i (omega arith)

at-last : (l : List ℕ) (x i : ℕ) → i ≡ length l → at (l ++ (x ∷ [])) i ≡ some x
at-last [] x zero h = refl
at-last [] x (suc i) h = absurd (omega arith)
at-last (y ∷ l) x zero h = absurd (omega arith)
at-last (y ∷ l) x (suc i) h = at-last l x i (omega arith)

at-spawn : (address : ℕ → ℕ) (n i : ℕ) → i < n → at (spawn address n) i ≡ some (address i)
unfolding spawn
at-spawn address zero i h = absurd (omega arith)
at-spawn address (suc n) i h = elim (Bool-cases (i == n)) [
  | inl e ↦
      let q : i ≡ n = ground (arith, e) in
      at-last (spawn address n) (address n) i (q ∙ sym (length-spawn address n))
      ∙ ap (λ j. some (address j)) (sym q)
  | inr e ↦
      at-first (spawn address n) (address n ∷ []) i (ground (arith, e, h, length-spawn address n))
      ∙ at-spawn address n i (ground (arith, e, h))
]

-- The group once its threads are started.
abbrev started : (ℕ → ℕ) → ℕ → ℕ → EventLoopGroup
started address n i = record { started = true; num_threads = n; next = i; loops = spawn address n }

last_loop : (ℕ → ℕ) → ℕ → ℕ → ℕ → ℕ
last_loop address n i zero = i
last_loop address n i (suc k) = last_loop address n (if leb n (i + 1) then 0 else i + 1) k

get_next_loops-turns :
    (address : ℕ → ℕ) (base n i k : ℕ)
    → i < n
    → get_next_loops k base (started address n i)
      ≡ some (turns address n i k, started address n (last_loop address n i k))
unfolding get_next_loops get_next_loop last_loop
get_next_loops-turns address base n i zero h = refl
get_next_loops-turns address base n i (suc k) h =
    let some_loops : (n == 0) ≡ false = ground (arith, h) in
    rw
      (
        length-spawn address n,
        some_loops,
        at-spawn address n i h,
        get_next_loops-turns address base n (if leb n (i + 1) then 0 else i + 1) k
            (ground (arith, h)),
      )
      refl

get_next_loops-base :
    (base k : ℕ) (g : EventLoopGroup)
    → length g.loops ≡ 0
    → get_next_loops k base g ≡ some (replicate k base, g)
unfolding get_next_loops get_next_loop
get_next_loops-base base zero g h = refl
get_next_loops-base base (suc k) g h = rw (h, get_next_loops-base base k g h) refl

module _ (inet : Inet) (address : ℕ → ℕ) (base n : ℕ) (rs : List Accept4) where
  -- What the server and its acceptor are then.
  abbrev pub Serves : Acceptor → Acceptor × Serving → Type 0
  Serves a (a', s') =
      (a' ≡ record a { listening = true; accept_channel = enable_reading a.accept_channel })
      × (s'.made ≡ makes inet base 1 rs (io_loops address n base (length (fds rs))))

  all_loops :
      Returns
        (λ r. r.0 ≡ io_loops address n base (length (fds rs)))
        (get_next_loops (length (fds rs)) base (started address n 0))
  all_loops = elim (Bool-cases (n == 0)) [
    | inl e ↦
        let none_there : length (spawn address n) ≡ 0 = length-spawn address n ∙ (==_iff n 0).0 e in
        rw (get_next_loops-base base (length (fds rs)) (started address n 0) none_there, e) refl
    | inr e ↦
        rw (get_next_loops-turns address base n 0 (length (fds rs)) (ground (arith, e)), e) refl
  ]

  -- A new server for `n` threads, whose acceptor does not listen yet, is started in its loop's thread, where
  -- listen succeeds, and then the acceptor is
  -- called for any results of accept4: it listens, and there is one connection for each descriptor that was
  -- accepted, in their order, numbered from 1 on; their loops are those of the threads, each in turn from the
  -- first on, or the server's own, if it has no threads. None is closed.
  pub start-Serves :
      (a : Acceptor)
      → a.listening ≡ false
      → Returns (Serves a) (start true address (count 0) (made n a) >>= handle_reads inet base rs)
  unfolding start EventLoopGroup.start listen or_die
  start-Serves a h =
      rw (h, handle_reads-served inet base rs)
        (Returns-bind (λ r. r.0 ≡ io_loops address n base (length (fds rs))) _ _ _ all_loops
          (λ r e. (refl, ap (makes inet base 1 rs) e)))
