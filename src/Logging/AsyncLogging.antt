-- ===== src/Logging/AsyncLogging.antt =====
-- src/logging/AsyncLoggingDoubleBuffering.h. A `BufferPtr` is an optional buffer, `none` is the null
-- pointer, and a null pointer that is dereferenced makes the result `none`. The two critical sections
-- and the writing of the back end are one step each.
pub mod Order
pub mod Stop
mod Tests
use libcpp.Prelude.{
  ℕ, ◌<◌, ◌≡◌, Bool, true, false, Option, none, some, List, [], ◌∷◌, ◌++◌, ltb, if◌then◌else◌,
  ◌>>=◌, length,
}
use libcpp.Io.FixedBuffer.{FixedBuffer, append, avail, string}
use libcpp.Io.FixedBuffer as Fixed

-- With the locals of `threadFunc`; `written` is what the file was given.
pub record AsyncLogging : Type 0 where
  pub current_buffer : Option FixedBuffer
  pub next_buffer : Option FixedBuffer
  pub buffers : List FixedBuffer
  pub new_buffer1 : Option FixedBuffer
  pub new_buffer2 : Option FixedBuffer
  pub buffers_to_write : List FixedBuffer
  pub written : List ℕ

unfoldable pub strings : List FixedBuffer → List ℕ
strings [] = []
strings (b ∷ bs) = string b ++ strings bs

-- What a null pointer is replaced by.
abbrev pub or_else : Option FixedBuffer → FixedBuffer → FixedBuffer
or_else (some b) c = b
or_else none c = c

-- `kLargeBuffer` is the size of every buffer.
module _ (large : ℕ) where
  -- The constructor, and the start of `threadFunc`.
  abbrev pub init : AsyncLogging
  init = record {
    current_buffer = some (Fixed.init large);
    next_buffer = some (Fixed.init large);
    buffers = [];
    new_buffer1 = some (Fixed.init large);
    new_buffer2 = some (Fixed.init large);
    buffers_to_write = [];
    written = [];
  }

  unfoldable pub log : List ℕ → AsyncLogging → Option AsyncLogging
  log line s = s.current_buffer >>= λ current. some (
      if ltb (length line) (avail current)
      then record s { current_buffer = some (append current line) }
      else record s {
        buffers = s.buffers ++ (current ∷ []);
        current_buffer = some (append (or_else s.next_buffer (Fixed.init large)) line);
        next_buffer = none;
      })

-- `if (!p) p = std::move(q);`, with what is left in `p` and in `q`.
abbrev pub refill : Option FixedBuffer → Option FixedBuffer → Option FixedBuffer
refill none q = q
refill (some b) q = some b

abbrev pub left_over : Option FixedBuffer → Option FixedBuffer → Option FixedBuffer
left_over none q = none
left_over (some b) q = q

-- The critical section of `threadFunc`, when its wait is over. A null `currentBuffer_` would be
-- dereferenced when it is written.
unfoldable pub collect : AsyncLogging → Option AsyncLogging
collect s = s.current_buffer >>= λ current. some (record s {
  current_buffer = s.new_buffer1;
  next_buffer = refill s.next_buffer s.new_buffer2;
  buffers = [];
  new_buffer1 = none;
  new_buffer2 = left_over s.next_buffer s.new_buffer2;
  buffers_to_write = s.buffers ++ (current ∷ []);
})

-- The rest of a round. The buffers made at its end are locals of the loop, and gone with it.
unfoldable pub write_out : AsyncLogging → AsyncLogging
write_out s = record s { written = s.written ++ strings s.buffers_to_write; buffers_to_write = [] }

module _ (large : ℕ) where
  -- The calls of `append` by any threads, in their order.
  abbrev pub log_all : List (List ℕ) → AsyncLogging → Option AsyncLogging
  log_all [] s = some s
  log_all (line ∷ lines) s = log large line s >>= log_all lines

  -- `start`, the lines that come before the one round of the back end, those that come behind it, and `stop`: the
  -- loop ends, and nothing more is written.
  unfoldable pub start_and_stop : List (List ℕ) → List (List ℕ) → Option AsyncLogging
  start_and_stop lines late = do
    s ← log_all lines (init large)
    s' ← collect s
    log_all late (write_out s')
