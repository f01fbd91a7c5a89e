-- ===== src/Reactor/EventLoopGroup/Tests.antt =====
-- A group of three loops.
use libcpp.Prelude.{◌≡◌, refl, ◌+◌, true, some, [], ◌∷◌, ◌>>=◌}
use libcpp.Reactor.EventLoopGroup.{init, start, spawn, get_next_loop, get_next_loops}

-- Five calls with three threads.
start_runs :
    (start true (λ n. n + 7) (init 3) >>= λ g. get_next_loops 5 1 g >>= λ r. some r.0)
    ≡ some (7 ∷ 8 ∷ 9 ∷ 7 ∷ 8 ∷ [])
unfolding start spawn get_next_loop get_next_loops
start_runs = refl
