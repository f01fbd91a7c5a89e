-- ===== src/Net/TcpConnection/Shutdown.antt =====
-- `shutdown`: the socket is closed for writing when, and only when, nothing waits to be written.
use libcpp.Prelude.{
  ℕ, ◌≡◌, refl, ap, sym, ◌∙◌, inl, inr, true, false, not, ◌||◌, none, [], ◌++◌, arith, Bool-cases,
  Returns, Returns-bind, length, drop, drop_of_le, append-nil, count,
}
use libcpp.Io.Buffer.{Buffer, readable_bytes, retrieve}
use libcpp.Io.Buffer.Room.{contents, length-contents}
use libcpp.Io.Buffer.Queue.{Holds, retrieve-Holds}
use libcpp.Reactor.Channel.{is_writing, disable_writing}
use libcpp.Reactor.Channel.Bits.{disable_writing-Wants, is_writing-Wants}
use libcpp.Net.TcpConnection.{
  TcpConnection, connected, disconnecting, Callbacks, notify, update, shutdown_write,
  shutdown_in_loop, shutdown, drained, advance, handle_write,
}
use libcpp.Net.TcpConnection.Stream.{Inv, stream, has_backlog}
use libcpp.Net.TcpConnection.Write.{advanced, advanced-stream}

-- `shutdown` of a connected connection in good order, in the loop's thread, shuts the socket for writing at once
-- if no byte waits in the output buffer, and else leaves it open; and it loses no byte.
pub shutdown_lem :
    (c : TcpConnection)
    → Inv c
    → c.state ≡ connected
    → let c' = (shutdown true c).1 in
      (c'.state ≡ disconnecting)
      × (c'.wire_closed ≡ (not (has_backlog c) || c.wire_closed))
      × (stream c' ≡ stream c)
unfolding shutdown shutdown_write
shutdown_lem c v h = elim (Bool-cases (has_backlog c)) [
  | inl t ↦
      rw (h, is_writing-Wants v.reading (has_backlog c) c.channel v.wants, t) (refl, refl, refl)
  | inr t ↦
      rw (h, is_writing-Wants v.reading (has_backlog c) c.channel v.wants, t) (refl, refl, refl)
]

-- The last write of a connection that disconnects, with a valid output buffer that is not empty: all bytes that were accepted for sending are on
-- the wire, and then the socket is shut for writing. (No write-complete callback is set.)
pub handle_write_last :
    (cb : Callbacks) (c : TcpConnection)
    → cb.write_complete ≡ none
    → Inv c
    → c.state ≡ disconnecting
    → has_backlog c ≡ true
    → Returns
        (λ c'. (c'.wire ≡ stream c) × (c'.wire_closed ≡ true))
        (handle_write cb true (count (readable_bytes c.output_buffer)) c)
unfolding handle_write advance drained update shutdown_in_loop shutdown_write notify advanced
handle_write_last cb c no_cb v closing waits =
    rw (is_writing-Wants v.reading (has_backlog c) c.channel v.wants, waits)
      (Returns-bind (Holds (drop n (contents c.output_buffer)) c.output_buffer.writer_index) _
        (retrieve c.output_buffer n) _ (retrieve-Holds n v.out (omega arith))
        λ out k.
          rw (all_out out k, no_cb, closing, stopped)
            (
              sym (append-nil (advanced n out c).wire)
                  ∙ ap (λ xs. (advanced n out c).wire ++ xs) (sym (k.held ∙ none_left))
                  ∙ advanced-stream n out c v.out k.held,
              refl,
            ))
  where
    n : ℕ
    n = readable_bytes c.output_buffer

    none_left : drop n (contents c.output_buffer) ≡ []
    none_left = drop_of_le n (contents c.output_buffer) (omega (arith, length-contents v.out))

    all_out :
        (out : Buffer)
        → Holds (drop n (contents c.output_buffer)) c.output_buffer.writer_index out
        → readable_bytes out ≡ 0
    all_out out k = sym (length-contents k.valid) ∙ ap length (k.held ∙ none_left)

    stopped : is_writing (disable_writing c.channel) ≡ false
    stopped =
        is_writing-Wants v.reading false (disable_writing c.channel)
          (disable_writing-Wants v.reading (has_backlog c) c.channel v.wants)
