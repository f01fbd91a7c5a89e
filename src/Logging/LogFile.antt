-- ===== src/Logging/LogFile.antt =====
-- src/logging/LogFile.h and src/logging/LogFile.cc. `fwrite k m` is how many of `m` bytes the k-th
-- call of fwrite_unlocked takes, and `now` what time(2) gives in seconds.
pub mod Append
pub mod Roll
mod Tests
use libcpp.Prelude.{
  ℕ, zero, suc, ◌+◌, ◌-◌, ◌*◌, ◌/◌, Bool, true, false, Option, none, some, List, [], ◌∷◌, ◌++◌, ltb,
  ◌==◌, if◌then◌else◌, not, length, take, drop, ◌>>=◌, ◌||◌, add_size, sub_size,
}

-- class LogFile::File, with the bytes of lines that it was given, whether it was also given bytes from
-- behind a line, and the calls of fwrite_unlocked.
pub record File : Type 0 where
  pub out : List ℕ
  pub overread : Bool
  pub written_bytes : ℕ
  pub calls : ℕ

-- What became of a call: it returned, it waits for a mutex that its own thread holds, or its loop has not
-- ended within the fuel.
pub data Outcome {ℓ} (A : Type ℓ) : Type ℓ where
  done : A → Outcome A
  deadlocked : Outcome A
  unfinished : Outcome A

abbrev pub new_file : File
new_file = record { out = []; overread = false; written_bytes = 0; calls = 0 }

abbrev pub count_bytes : ℕ → Outcome File → Outcome File
count_bytes len (done f) = done (record f { written_bytes = f.written_bytes + len })
count_bytes len deadlocked = deadlocked
count_bytes len unfinished = unfinished

module _ (fwrite : ℕ → ℕ → ℕ) where
  -- `write(logline + n, len)`, with the count. What stands behind the line is not known.
  unfoldable pub write : List ℕ → ℕ → ℕ → File → ℕ × File
  write logline n len f =
      let x = fwrite f.calls len in
      (
        x,
        record f {
          out = f.out ++ take x (drop n logline);
          overread = ltb (length logline) (n + x) || f.overread;
          calls = f.calls + 1;
        },
      )

  -- The loop of `File::append`. It asks for `len` bytes again each time; `remain` wraps.
  unfoldable pub write_rest : ℕ → List ℕ → ℕ → ℕ → File → Outcome File
  write_rest zero logline n remain f = unfinished
  write_rest (suc fuel) logline n remain f =
      let (x, f') = write logline n (length logline) f in
      let rest = write_rest fuel logline (add_size n x) (sub_size remain x) f' in
      if remain == 0 then done f else if x == 0 then done f' else rest

  pub file_append : ℕ → List ℕ → File → Outcome File
  file_append fuel logline f =
      let (n, f') = write logline 0 (length logline) f in
      count_bytes (length logline) (write_rest fuel logline n (sub_size (length logline) n) f')

-- `closed` are the files that were rolled, with the oldest first, and `flushes` the calls of fflush.
pub record LogFile : Type 0 where
  pub flush_interval : ℕ
  pub roll_size : ℕ
  pub start_day : ℕ
  pub last_flush_time : ℕ
  pub thread_safe : Bool
  pub file : File
  pub closed : List File
  pub flushes : ℕ

abbrev pub seconds_per_day : ℕ
seconds_per_day = 60 * 60 * 24

unfoldable pub roll_file : ℕ → LogFile → LogFile
roll_file now l = record l {
  start_day = now / seconds_per_day;
  last_flush_time = now;
  closed = l.closed ++ (l.file ∷ []);
  file = new_file;
}

-- The constructor.
abbrev pub init : ℕ → ℕ → Bool → ℕ → LogFile
init now roll_size thread_safe flush_interval = record {
  flush_interval = flush_interval;
  roll_size = roll_size;
  start_day = now / seconds_per_day;
  last_flush_time = now;
  thread_safe = thread_safe;
  file = new_file;
  closed = [];
  flushes = 0;
}

-- `locked` tells if the thread holds the mutex.
unfoldable pub flush : Bool → LogFile → Outcome LogFile
flush locked l = if locked then deadlocked else done (record l { flushes = l.flushes + 1 })

-- What follows the write in `append_unlocked`.
unfoldable pub after_append : Bool → ℕ → LogFile → Outcome LogFile
after_append locked now l =
    if ltb l.roll_size l.file.written_bytes
    then done (roll_file now l)
    else if not (now / seconds_per_day == l.start_day)
    then done (roll_file now l)
    else if ltb l.flush_interval (now - l.last_flush_time)
    then flush locked (record l { last_flush_time = now })
    else done l

abbrev pub then_after : Bool → ℕ → LogFile → Outcome File → Outcome LogFile
then_after locked now l (done f) = after_append locked now (record l { file = f })
then_after locked now l deadlocked = deadlocked
then_after locked now l unfinished = unfinished

module _ (fwrite : ℕ → ℕ → ℕ) where
  -- `append`: with a mutex it runs `append_unlocked` under it.
  pub append : ℕ → ℕ → List ℕ → LogFile → Outcome LogFile
  append fuel now logline l =
      then_after l.thread_safe now l (file_append fwrite fuel logline l.file)
