-- ===== src/Logging/AsyncLogging/Tests.antt =====
-- The theorems on class AsyncLoggingDoubleBuffering with buffers of eight bytes.
use libcpp.Prelude.{◌≡◌, refl, some, List, ℕ, [], ◌∷◌, Returns, ◌>>=◌, arith}
use libcpp.Io.FixedBuffer.{string, avail, append}
use libcpp.Logging.AsyncLogging.{init, log, collect, write_out, strings, start_and_stop}
use libcpp.Logging.AsyncLogging.Stop.{start_and_stop_lem}

abbrev line : List ℕ
line = 1 ∷ 2 ∷ 3 ∷ 4 ∷ 5 ∷ []

-- Two lines and a round.
round_runs :
    (log 8 line (init 8) >>= λ s.
    log 8 line s >>= λ s. collect s >>= λ s. some (write_out s).written)
    ≡ some (1 ∷ 2 ∷ 3 ∷ 4 ∷ 5 ∷ 1 ∷ 2 ∷ 3 ∷ 4 ∷ 5 ∷ [])
unfolding log collect write_out strings string avail append
round_runs = refl

start_and_stop_lem_example :
    Returns
      (λ s. s.written ≡ 1 ∷ 2 ∷ 3 ∷ 4 ∷ 5 ∷ 1 ∷ 2 ∷ 3 ∷ 4 ∷ 5 ∷ [])
      (start_and_stop 8 (line ∷ line ∷ []) (line ∷ []))
start_and_stop_lem_example =
    start_and_stop_lem 8 (line ∷ line ∷ []) (line ∷ []) (omega arith, (omega arith, tt))
      (omega arith, tt)
