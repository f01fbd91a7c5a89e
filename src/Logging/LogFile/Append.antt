-- ===== src/Logging/LogFile/Append.antt =====
-- `File::append` where each write takes all that it is given.
use libcpp.Prelude.{
  sub_size, ℕ, suc, ◌+◌, ◌≡◌, refl, true, false, List, ◌++◌, arith, ltb, ◌==◌, length, take_of_le,
}
use libcpp.Logging.LogFile.{File, done, write, write_rest, file_append}

-- Where each write takes all that it is asked to take, the file gets the whole line with one write.
pub file_append_lem :
    (fwrite : ℕ → ℕ → ℕ) (fuel : ℕ) (logline : List ℕ) (f : File)
    → ((k m : ℕ) → fwrite k m ≡ m)
    → file_append fwrite (suc fuel) logline f
      ≡ done (record {
        out = f.out ++ logline;
        overread = f.overread;
        written_bytes = f.written_bytes + length logline;
        calls = f.calls + 1;
      })
unfolding file_append write_rest write
file_append_lem fwrite fuel logline f whole =
    rw
      (
        whole f.calls (length logline),
        nothing_left,
        take_of_le (length logline) logline (omega arith),
        no_more,
      )
      refl
  where
    nothing_left : (sub_size (length logline) (length logline) == 0) ≡ true
    nothing_left = ground arith

    no_more : ltb (length logline) (0 + length logline) ≡ false
    no_more = ground arith
