-- ===== src/Logging/LogFile/Tests.antt =====
-- A log file of at most five bytes, that is flushed after three seconds.
use libcpp.Prelude.{ℕ, List, [], ◌∷◌, if◌then◌else◌, ◌==◌}

-- Each write takes everything; or only the first one takes two bytes.
abbrev all : ℕ → ℕ → ℕ
all k m = m

abbrev two_first : ℕ → ℕ → ℕ
two_first k m = if k == 0 then 2 else m

abbrev line : List ℕ
line = 1 ∷ 2 ∷ 3 ∷ []
