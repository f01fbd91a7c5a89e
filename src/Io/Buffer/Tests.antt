-- ===== src/Io/Buffer/Tests.antt =====
-- Runs of class Buffer on small inputs, and the theorems at such inputs.
use mathlib.Core.Option
use libcpp.Prelude.{ℕ, ◌≡◌, refl, Option, some, none, List, [], ◌∷◌, ◌++◌, arith, length, replicate}
use libcpp.Io.Buffer.{
  Buffer, ensure_writable_bytes, make_space, slide, grow, resize, readable_bytes, writable_bytes,
  prependable_bytes, copy_to, write_bytes, has_written, received, init, append, make_space,
}
use libcpp.Io.Buffer.Room.{IsValid, contents}
use libcpp.Io.Buffer.Run.{
  Op, appends, retrieves, clears, reads, run, run_queue, step_queue, run_refines,
}

-- Two unread bytes behind a long prefix, and room for one more.
abbrev worn : Buffer
worn = record { bytes = replicate 12 0 ++ (7 ∷ 8 ∷ 0 ∷ []); reader_index = 12; writer_index = 14 }

worn-IsValid : IsValid worn
worn-IsValid = omega arith

abbrev view : Option Buffer → Option (ℕ × ℕ × ℕ)
view = Option.map (λ b. (b.reader_index, b.writer_index, length b.bytes))

-- Three bytes fit only after the unread ones move to the front; no byte is added to the vector.
append_slides : view (append worn (1 ∷ 2 ∷ 3 ∷ [])) ≡ some (8, 13, 15)
unfolding append ensure_writable_bytes make_space slide readable_bytes writable_bytes
    prependable_bytes copy_to write_bytes has_written
append_slides = refl

-- Eight do not fit, and the vector grows.
append_grows : view (append worn (1 ∷ 2 ∷ 3 ∷ 4 ∷ 5 ∷ 6 ∷ 7 ∷ 8 ∷ [])) ≡ some (12, 22, 22)
unfolding append ensure_writable_bytes make_space grow resize writable_bytes prependable_bytes
    copy_to write_bytes has_written
append_grows = refl

init_runs : view init ≡ some (8, 8, 1032)
unfolding init
init_runs = refl

abbrev calls : List Op
calls = appends (1 ∷ []) ∷ retrieves 2 ∷ reads (received (5 ∷ 6 ∷ [])) ∷ clears ∷ retrieves 1 ∷ []

run_refines_example : Option.map contents (run worn calls) ≡ none
unfolding run_queue step_queue
run_refines_example = run_refines calls worn worn-IsValid (omega arith)
