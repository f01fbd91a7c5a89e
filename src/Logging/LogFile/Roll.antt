-- ===== src/Logging/LogFile/Roll.antt =====
-- When files are rolled and flushed.
use libcpp.Prelude.{ℕ, suc, ◌+◌, ◌-◌, ◌/◌, ◌≤◌, ◌<◌, ◌≡◌, true, List, [], ◌∷◌, ◌++◌, arith, length}
use libcpp.Logging.LogFile.{
  File, Outcome, done, deadlocked, LogFile, seconds_per_day, flush, after_append, append,
}
use libcpp.Logging.LogFile.Append.{file_append_lem}

-- The current file counts its bytes, and has at most `rollSize_` of them.
pub record Inv (l : LogFile) : Type 0 where
  pub counted : l.file.written_bytes ≡ length l.file.out
  pub small : l.file.written_bytes ≤ l.roll_size

abbrev pub outs : List File → List ℕ
outs [] = []
outs (f ∷ fs) = f.out ++ outs fs

-- All that was logged, over all files.
abbrev pub text : LogFile → List ℕ
text l = outs l.closed ++ l.file.out

-- What a line leaves: it stands behind all others, in the same files, of which the last may have been
-- rolled; it is rolled if it is too large or the day is over; and the day is that of the last line.
pub record Logged (now : ℕ) (logline : List ℕ) (l l' : LogFile) : Type 0 where
  pub inv : Inv l'
  pub whole : text l' ≡ text l ++ logline
  pub today : l'.start_day ≡ now / seconds_per_day
  pub recent : now - l'.last_flush_time ≤ l'.flush_interval

abbrev pub Done {ℓ} : {A : Type ℓ} → (A → Type 0) → Outcome A → Type 0
Done P (done a) = P a
Done P _ = ⊥

module _ (fwrite : ℕ → ℕ → ℕ) (fuel now : ℕ) (logline : List ℕ) (l : LogFile)
    (whole : (k m : ℕ) → fwrite k m ≡ m) (v : Inv l) where
  added : LogFile
  added = record l {
    file = record {
      out = l.file.out ++ logline;
      overread = l.file.overread;
      written_bytes = l.file.written_bytes + length logline;
      calls = l.file.calls + 1;
    };
  }

-- With a mutex, a line for which the flush is due waits for ever: `append` holds the mutex that `flush`
-- locks again.
pub append-deadlocked :
    (fwrite : ℕ → ℕ → ℕ) (fuel now : ℕ) (logline : List ℕ) (l : LogFile)
    → ((k m : ℕ) → fwrite k m ≡ m)
    → l.thread_safe ≡ true
    → l.file.written_bytes + length logline ≤ l.roll_size
    → now / seconds_per_day ≡ l.start_day
    → l.flush_interval < now - l.last_flush_time
    → append fwrite (suc fuel) now logline l ≡ deadlocked
unfolding append after_append flush
append-deadlocked fwrite fuel now logline l whole t small day due =
    rw (file_append_lem fwrite fuel logline l.file whole, t) (ground arith)
