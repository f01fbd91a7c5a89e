-- ===== src/Io/Buffer.antt =====
-- src/io/Buffer.h and src/io/Buffer.cc: class Buffer. A call that would fail an assertion, or
-- touch a byte outside the vector, is `none`.
pub mod Room
pub mod Queue
pub mod Read
pub mod Run
mod Tests
use libcpp.Prelude.{
  ℕ, ◌+◌, ◌-◌, ◌^◌, Option, none, some, List, ◌++◌, ltb, leb, ◌==◌, if◌then◌else◌, ◌>>=◌, ◌>>◌,
  SysResult, count, fail, assert, length, take, drop, replicate, add_size, sub_size,
}

pub record Buffer : Type 0 where
  pub bytes : List ℕ
  pub reader_index : ℕ
  pub writer_index : ℕ

abbrev pub cheap_prepend : ℕ
cheap_prepend = 8

abbrev pub initial_size : ℕ
initial_size = 1024

unfoldable pub readable_bytes : Buffer → ℕ
readable_bytes b = sub_size b.writer_index b.reader_index

unfoldable pub writable_bytes : Buffer → ℕ
writable_bytes b = sub_size (length b.bytes) b.writer_index

unfoldable pub prependable_bytes : Buffer → ℕ
prependable_bytes b = b.reader_index

abbrev fresh : Buffer
fresh = record {
  bytes = replicate (cheap_prepend + initial_size) 0;
  reader_index = cheap_prepend;
  writer_index = cheap_prepend;
}

-- The constructor.
unfoldable pub init : Option Buffer
unfolding readable_bytes writable_bytes prependable_bytes
init = do
  assert (readable_bytes fresh == 0)
  assert (writable_bytes fresh == initial_size)
  assert (prependable_bytes fresh == cheap_prepend)
  some fresh

unfoldable pub retrieve : Buffer → ℕ → Option Buffer
retrieve b len = do
  assert (leb len (readable_bytes b))
  some (record b { reader_index = add_size b.reader_index len })

unfoldable pub retrieve_all : Buffer → Buffer
retrieve_all b = record b { reader_index = cheap_prepend; writer_index = cheap_prepend }

-- The bytes that `data()` points at, up to `readableBytes()`.
unfoldable pub peek : Buffer → List ℕ
peek b = take (readable_bytes b) (drop b.reader_index b.bytes)

unfoldable pub retrieve_as_string : Buffer → List ℕ × Buffer
unfolding peek retrieve_all
retrieve_as_string b = (peek b, retrieve_all b)

-- `std::copy` of `new` to position `at` of a vector.
copy_to : List ℕ → ℕ → List ℕ → Option (List ℕ)
copy_to bytes at new =
    if leb (at + length new) (length bytes)
    then some (take at bytes ++ (new ++ drop (at + length new) bytes))
    else none

-- `std::vector<char>::resize`, which throws above `max_size`.
abbrev pub max_size : ℕ
max_size = 2 ^ 63 - 1

resize : List ℕ → ℕ → Option (List ℕ)
resize bytes n =
    if leb n max_size then some (take n bytes ++ replicate (n - length bytes) 0) else none

-- The first branch of `makeSpace`: the vector grows.
grow : Buffer → ℕ → Option Buffer
grow b len = do
  bytes ← resize b.bytes (add_size b.writer_index len)
  some (record b { bytes = bytes })

-- The second branch: the readable bytes move to the front.
slide : Buffer → Option Buffer
slide b = do
  assert (ltb cheap_prepend b.reader_index)
  let readable = readable_bytes b
  bytes ←
      copy_to b.bytes cheap_prepend
        (take (b.writer_index - b.reader_index) (drop b.reader_index b.bytes))
  let b' = record b {
    bytes = bytes;
    reader_index = cheap_prepend;
    writer_index = add_size cheap_prepend readable;
  }
  assert (readable == readable_bytes b')
  some b'

pub make_space : Buffer → ℕ → Option Buffer
make_space b len =
    if ltb (add_size (writable_bytes b) (prependable_bytes b)) (add_size len cheap_prepend)
    then grow b len
    else slide b

pub ensure_writable_bytes : Buffer → ℕ → Option Buffer
ensure_writable_bytes b len = do
  b' ← if ltb (writable_bytes b) len then make_space b len else some b
  assert (leb len (writable_bytes b'))
  some b'

unfoldable pub has_written : Buffer → ℕ → Buffer
has_written b len = record b { writer_index = add_size b.writer_index len }

-- `std::copy(data, data+len, beginWrite())`
pub write_bytes : Buffer → List ℕ → Option Buffer
write_bytes b new = do bytes ← copy_to b.bytes b.writer_index new; some (record b { bytes = bytes })

pub append : Buffer → List ℕ → Option Buffer
append b new = do
  b' ← ensure_writable_bytes b (length new)
  b'' ← write_bytes b' new
  some (has_written b'' (length new))

-- The size of `extrabuf` in `readFd`.
abbrev pub extra_size : ℕ
extra_size = 65536

-- `readFd`, over what `readv` delivers: the bytes, at most `writable + extra_size` of them, or an
-- errno. They fill the vector's free end first, and `extrabuf` takes the rest. With the buffer it
-- returns the count, or the errno that goes to `savedErrno`.
pub data Incoming : Type 0 where
  received : List ℕ → Incoming
  failed : ℕ → Incoming

pub read_fd : Buffer → Incoming → Option (SysResult × Buffer)
read_fd b (failed errno) = some (fail errno, b)
read_fd b (received new) = do
  let writable = writable_bytes b
  b' ← write_bytes b (take writable new)
  b'' ←
      if leb (length new) writable
      then some (has_written b' (length new))
      else append (record b' { writer_index = length b'.bytes }) (drop writable new)
  some (count (length new), b'')
