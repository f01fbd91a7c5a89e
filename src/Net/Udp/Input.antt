-- ===== src/Net/Udp/Input.antt =====
-- What is left of datagrams that no callback takes out of the buffer.
use libcpp.Prelude.{
  ℕ, zero, suc, ◌+◌, ◌-◌, ◌≡◌, refl, ◌∙◌, ap, ap₂, sym, Option, some, List, [], ◌∷◌, ◌++◌,
  append-nil, append_assoc, arith, length, take, length-take, take_of_le, Returns, Returns-bind,
  Returns-imp, ◌>>=◌,
}
use libcpp.Io.Buffer.{writable_bytes, write_bytes, has_written}
use libcpp.Io.Buffer.Room.{IsValid, contents, writable_bytes_lem}
use libcpp.Io.Buffer.Queue.{Wrote, write_bytes-Wrote}
use libcpp.Io.Buffer.Read.{first_part}
use libcpp.Net.Udp.{Udp, Datagram, datagram, failed, MessageCallback, handle_read}

-- All bytes that come.
abbrev pub bytes_in : List Datagram → List ℕ
bytes_in [] = []
bytes_in (failed ∷ ds) = bytes_in ds
bytes_in (datagram peer bytes ∷ ds) = bytes ++ bytes_in ds

abbrev pub handle_reads : MessageCallback → List Datagram → Udp → Option Udp
handle_reads message [] u = some u
handle_reads message (d ∷ ds) u = handle_read message d u >>= handle_reads message ds

abbrev pub keep : MessageCallback
keep peer b = some b

-- The buffer holds `xs`, and its vector and room are as said.
record Filled (xs : List ℕ) (room : ℕ) (u : Udp) : Type 0 where
  valid : IsValid u.input_buffer
  held : contents u.input_buffer ≡ xs
  room_left : writable_bytes u.input_buffer ≡ room

take-append :
    (n : ℕ) (xs ys : List ℕ) → take n (xs ++ ys) ≡ take n xs ++ take (n - length (take n xs)) ys
take-append zero xs ys = refl
take-append (suc n) [] ys = let e : suc n ≡ suc n - 0 = omega arith in ap (λ k. take k ys) e
take-append (suc n) (x ∷ xs) ys =
    ap (λ l. x ∷ l) (take-append n xs ys ∙ ap (λ k. take n xs ++ take k ys) (omega arith))

handle_read-Filled :
    (peer : ℕ) (bytes : List ℕ) (u : Udp)
    → IsValid u.input_buffer
    → let room = writable_bytes u.input_buffer in
      Returns
        (Filled (contents u.input_buffer ++ take room bytes) (room - length (take room bytes)))
        (handle_read keep (datagram peer bytes) u)
unfolding handle_read has_written
handle_read-Filled peer bytes u v =
    let new = take (writable_bytes u.input_buffer) bytes in
    Returns-bind
      (Wrote (contents u.input_buffer) (u.input_buffer.writer_index + length new) u.input_buffer
        new)
      _ (write_bytes u.input_buffer new) _ (write_bytes-Wrote new (first_part bytes v))
      λ c w. record {
        valid = w.holds.valid;
        held = w.holds.held;
        room_left = omega (
          arith,
          writable_bytes_lem w.holds.valid,
          writable_bytes_lem v,
          w.at,
          w.size,
          v.within,
          v.sized,
          length-take (writable_bytes u.input_buffer) bytes,
        );
      }

-- With a callback that leaves the input buffer as it is, a valid buffer has, after any datagrams
-- and errors, the contents that were there, and behind them the first bytes of all the datagrams
-- in a row, as many as there was room for: all others are lost, however the datagrams were cut. No
-- access is out of range.
pub handle_reads_lem :
    (ds : List Datagram) (u : Udp)
    → IsValid u.input_buffer
    → Returns
        (λ u'.
          contents u'.input_buffer
          ≡ contents u.input_buffer ++ take (writable_bytes u.input_buffer) (bytes_in ds))
        (handle_reads keep ds u)
unfolding handle_read
handle_reads_lem [] u v =
    sym (append-nil _)
    ∙ ap (λ l. contents u.input_buffer ++ l)
        (sym (take_of_le (writable_bytes u.input_buffer) [] (omega arith)))
handle_reads_lem (failed ∷ ds) u v = handle_reads_lem ds u v
handle_reads_lem (datagram peer bytes ∷ ds) u v =
    let room = writable_bytes u.input_buffer in
    Returns-bind
      (Filled (contents u.input_buffer ++ take room bytes) (room - length (take room bytes))) _
      (handle_read keep (datagram peer bytes) u) (handle_reads keep ds)
      (handle_read-Filled peer bytes u v)
      λ u' f. Returns-imp _ _ (handle_reads keep ds u') (handle_reads_lem ds u' f.valid) λ u'' e.
        e
        ∙ ap₂ (λ xs n. xs ++ take n (bytes_in ds)) f.held f.room_left
        ∙ append_assoc (contents u.input_buffer) (take room bytes) _
        ∙ ap (λ l. contents u.input_buffer ++ l) (sym (take-append room bytes (bytes_in ds)))
