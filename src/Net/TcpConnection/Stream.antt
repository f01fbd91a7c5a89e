-- ===== src/Net/TcpConnection/Stream.antt =====
-- The byte stream of class TcpConnection, and what `keep_rest` adds to it.
use libcpp.Prelude.{
  ℕ, ◌+◌, ◌≤◌, ◌<◌, ◌≡◌, ap, sym, inl, inr, Bool, true, false, List, ◌++◌, arith, tests, ltb,
  lt→ltb, Bool-cases, Returns, Returns-bind, length, length-append, length-drop, drop, drop_of_le,
  append-nil, append_assoc,
}
use libcpp.Io.Buffer.{Buffer, max_size, readable_bytes, append}
use libcpp.Io.Buffer.Room.{IsValid, contents, length-contents}
use libcpp.Io.Buffer.Queue.{Holds, append-Holds}
use libcpp.Reactor.Channel.Bits.{Wants, enable_writing-Wants, is_writing-Wants}
use libcpp.Net.TcpConnection.{TcpConnection, update, want_write, keep_rest}

abbrev pub has_backlog : TcpConnection → Bool
has_backlog c = ltb 0 (readable_bytes c.output_buffer)

-- The output buffer is valid, and the channel waits for writability exactly while it holds bytes.
pub record Inv (c : TcpConnection) : Type 0 where
  pub out : IsValid c.output_buffer
  pub reading : Bool
  pub wants : Wants reading (has_backlog c) c.channel

-- All bytes that were accepted for sending, in order.
abbrev pub stream : TcpConnection → List ℕ
stream c = c.wire ++ contents c.output_buffer

-- `c'` comes from `c` by the sending of `msg`.
pub record Sent (c : TcpConnection) (msg : List ℕ) (c' : TcpConnection) : Type 0 where
  pub inv : Inv c'
  pub whole : stream c' ≡ stream c ++ msg

want_write-wants :
    (r w : Bool) (c : TcpConnection) → Wants r w c.channel → Wants r true (want_write c).channel
unfolding want_write update
want_write-wants r true c h = rw (is_writing-Wants r true c.channel h) h
want_write-wants r false c h =
    rw (is_writing-Wants r false c.channel h) (enable_writing-Wants r false c.channel h)

want_write-rest :
    (c : TcpConnection)
    → ((want_write c).output_buffer ≡ c.output_buffer) × ((want_write c).wire ≡ c.wire)
unfolding want_write update
want_write-rest c = (ground arith, ground arith)

-- The connection with a longer output buffer, and the channel told.
more-Sent :
    (c : TcpConnection) (rest : List ℕ) (limit : ℕ) (out : Buffer)
    → Inv c
    → 0 < length rest
    → Holds (contents c.output_buffer ++ rest) limit out
    → Sent c rest (want_write (record c { output_buffer = out }))
more-Sent c rest limit out v some_left h = record {
  inv = record {
    out = rw (want_write-rest c').0 h.valid;
    reading = v.reading;
    wants =
        rw ((want_write-rest c').0, lt→ltb _ _ full)
          (want_write-wants v.reading (has_backlog c) c' v.wants);
  };
  whole =
      rw ((want_write-rest c').0, (want_write-rest c').1, h.held)
        (sym (append_assoc c.wire (contents c.output_buffer) rest));
}
  where
    c' : TcpConnection
    c' = record c { output_buffer = out }

    full : 0 < readable_bytes out
    full = omega (
      arith,
      length-contents h.valid,
      ap length h.held,
      length-append (contents c.output_buffer) rest,
    )

pub keep_rest-Sent :
    (n : ℕ) (msg : List ℕ) (c : TcpConnection)
    → Inv c
    → c.output_buffer.writer_index + length msg ≤ max_size
    → Returns (Sent c (drop n msg)) (keep_rest n msg c)
unfolding keep_rest
keep_rest-Sent n msg c v fits = elim (Bool-cases (ltb n (length msg))) [
  | inl t ↦ rw t (
      Returns-bind
        (Holds (contents c.output_buffer ++ drop n msg)
          (c.output_buffer.writer_index + length (drop n msg)))
        (Sent c (drop n msg)) (append c.output_buffer (drop n msg)) _
        (append-Holds (drop n msg) v.out (omega (arith, length-drop n msg)))
        λ out h. more-Sent c (drop n msg) _ out v (omega (tests, t, length-drop n msg)) h)
  | inr t ↦
      rw (t, drop_of_le n msg (ground arith))
        (record { inv = v; whole = sym (append-nil (stream c)) })
]
