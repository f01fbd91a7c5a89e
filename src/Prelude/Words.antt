-- ===== src/Prelude/Words.antt =====
-- `size_t` and `uint64_t`: 64 bits, sums and differences wrap.
use Prim.Native.Nat.{ℕ, ◌+◌, ◌-◌, ◌%◌, ◌^◌}

abbrev pub add_size : ℕ → ℕ → ℕ
add_size a b = (a + b) % 2 ^ 64

abbrev pub sub_size : ℕ → ℕ → ℕ
sub_size a b = (a + 2 ^ 64 - b) % 2 ^ 64

-- What a system call that moves bytes returns: a count, or -1 with `errno`.
pub data SysResult : Type 0 where
  count : ℕ → SysResult
  fail : ℕ → SysResult
