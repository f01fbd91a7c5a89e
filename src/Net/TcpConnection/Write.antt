-- ===== src/Net/TcpConnection/Write.antt =====
-- `handleWrite`: the output buffer drains to the wire, and nothing else changes in the stream.
use libcpp.Prelude.{
  ℕ, ◌≤◌, ◌≡◌, ap, sym, ◌∙◌, subst, inl, inr, Bool, true, false, ◌&&◌, some, [], ◌++◌, arith, ltb,
  ◌==◌, if◌then◌else◌, Bool-cases, Returns, Returns-bind, Returns-imp, take, drop, take-append-drop,
  append-nil, append_assoc, count,
}
use libcpp.Io.Buffer.{Buffer, readable_bytes, peek, retrieve}
use libcpp.Io.Buffer.Room.{IsValid, contents, readable_bytes_lem}
use libcpp.Io.Buffer.Queue.{Holds, retrieve-Holds}
use libcpp.Reactor.Channel.{is_writing, disable_writing}
use libcpp.Reactor.Channel.Bits.{Wants, disable_writing-Wants, is_writing-Wants}
use libcpp.Net.TcpConnection.{
  TcpConnection, Callbacks, notify, update, shutdown_write, shutdown_in_loop, drained, advance,
  handle_write, is_disconnecting,
}
use libcpp.Net.TcpConnection.Stream.{Inv, stream, Sent, has_backlog}
use libcpp.Net.TcpConnection.Send.{Quiet}

shutdown_write-Sent : (c : TcpConnection) → Inv c → Sent c [] (shutdown_write c)
unfolding shutdown_write
shutdown_write-Sent c v = elim (Bool-cases (is_writing c.channel)) [
  | inl t ↦ rw t (record { inv = v; whole = sym (append-nil (stream c)) })
  | inr t ↦ rw t (record {
    inv = record { out = v.out; reading = v.reading; wants = v.wants };
    whole = sym (append-nil (stream c));
  })
]

unfoldable pub advanced : ℕ → Buffer → TcpConnection → TcpConnection
advanced n out c = record c { output_buffer = out; wire = c.wire ++ take n (peek c.output_buffer) }

pub advanced-stream :
    (n : ℕ) (out : Buffer) (c : TcpConnection)
    → IsValid c.output_buffer
    → contents out ≡ drop n (contents c.output_buffer)
    → stream (advanced n out c) ≡ stream c
unfolding advanced peek
advanced-stream n out c v h =
    rw (h, readable_bytes_lem v)
      (append_assoc c.wire (take n (contents c.output_buffer)) _
        ∙ ap (λ xs. c.wire ++ xs) (take-append-drop n (contents c.output_buffer)))

has_more : (b : Buffer) → (readable_bytes b == 0) ≡ false → ltb 0 (readable_bytes b) ≡ true
has_more b h = ground (arith, h)

module _ (cb : Callbacks) (quiet : Quiet cb) where
  finish :
      (c : TcpConnection)
      → Inv c
      → Returns (Sent c []) (if is_disconnecting c.state then shutdown_in_loop true c else some c)
  unfolding shutdown_in_loop
  finish c v = elim (Bool-cases (is_disconnecting c.state)) [
    | inl t ↦ rw t (shutdown_write-Sent c v)
    | inr t ↦ rw t (record { inv = v; whole = sym (append-nil (stream c)) })
  ]

  drained-Sent :
      (c : TcpConnection)
      → IsValid c.output_buffer
      → (r : Bool) → Wants r true c.channel
      → readable_bytes c.output_buffer ≡ 0
      → Returns (Sent c []) (drained cb c)
  unfolding drained update
  drained-Sent c v r w h =
      Returns-bind (Sent idle []) (Sent c []) (notify cb.write_complete idle) _
        (quiet idle (record {
          out = v;
          reading = r;
          wants = rw h (disable_writing-Wants r true c.channel w);
        }))
        λ c' k.
          Returns-imp (Sent c' []) (Sent c [])
            (if is_disconnecting c'.state then shutdown_in_loop true c' else some c')
            (finish c' k.inv)
            λ c'' m. record { inv = m.inv; whole = m.whole ∙ append-nil (stream c') ∙ k.whole }
    where
      idle : TcpConnection
      idle = record c {
        channel = disable_writing c.channel;
        polled = some (disable_writing c.channel).events;
      }

  pub advance-Sent :
      (n : ℕ) (c : TcpConnection)
      → Inv c
      → (r : Bool) → Wants r true c.channel
      → n ≤ readable_bytes c.output_buffer
      → Returns (Sent c []) (advance cb n c)
  unfolding advance advanced
  advance-Sent n c v r w h =
      Returns-bind (Holds (drop n (contents c.output_buffer)) c.output_buffer.writer_index)
        (Sent c []) (retrieve c.output_buffer n) _ (retrieve-Holds n v.out h)
        λ out k. elim (Bool-cases (readable_bytes out == 0)) [
          | inl z ↦ rw z (
              Returns-imp (Sent (advanced n out c) []) (Sent c []) (drained cb (advanced n out c))
                (drained-Sent (advanced n out c) k.valid r w (ground (arith, z)))
                λ c'' m. record {
                  inv = m.inv;
                  whole = m.whole ∙ ap (λ xs. xs ++ []) (advanced-stream n out c v.out k.held);
                })
          | inr z ↦ rw z (record {
            inv = record { out = k.valid; reading = r; wants = rw (has_more out z) w };
            whole = advanced-stream n out c v.out k.held ∙ sym (append-nil (stream c));
          })
        ]

  -- `handleWrite` when `write` takes the first `n` bytes of the output buffer, any number of them,
  -- under the same conditions: the buffer is valid, the channel waits for writability just if bytes
  -- wait, and the write-complete callback sends nothing. It never aborts, loses no byte, repeats none and keeps their order, and goes on to wait for
  -- writability just if some bytes are left.
  pub handle_write-Sent :
      (n : ℕ) (c : TcpConnection)
      → Inv c
      → n ≤ readable_bytes c.output_buffer
      → Returns (Sent c []) (handle_write cb true (count n) c)
  unfolding handle_write advance
  handle_write-Sent n c v h = elim (Bool-cases (is_writing c.channel && ltb 0 n)) [
    | inl t ↦ rw t (
        advance-Sent n c v v.reading (subst (λ w. Wants v.reading w c.channel) (waits t) v.wants) h)
    | inr t ↦ rw t (record { inv = v; whole = sym (append-nil (stream c)) })
  ]
    where
      waits : (is_writing c.channel && ltb 0 n) ≡ true → has_backlog c ≡ true
      waits t = ground (arith, is_writing-Wants v.reading (has_backlog c) c.channel v.wants, t)
