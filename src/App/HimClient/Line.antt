-- ===== src/App/HimClient/Line.antt =====
-- Reading a line into the buffer of the chat client, and out of it.
use libcpp.Prelude.{
  ◌+◌, ◌-◌, ◌≤◌, ◌≡◌, refl, ap, ◌∙◌, [], ◌++◌, length, Returns, Returns-bind, arith, take, drop,
}
use libcpp.Prelude.Bytes.{Bytes}
use libcpp.Io.Buffer.{
  Buffer, cheap_prepend, max_size, received, read_fd, retrieve_as_string, peek, retrieve_all,
  readable_bytes,
}
use libcpp.Io.Buffer.Room.{IsValid, contents, readable_bytes_lem}
use libcpp.Io.Buffer.Read.{Read, read_fd-Holds}
use libcpp.Io.Buffer as Buffer
use libcpp.App.HimClient.{read_line}

-- The buffer between two lines.
pub record Emptied (b : Buffer) : Type 0 where
  pub valid : IsValid b
  pub reader : b.reader_index ≡ cheap_prepend
  pub writer : b.writer_index ≡ cheap_prepend

contents-Emptied : (b : Buffer) → Emptied b → contents b ≡ []
contents-Emptied b e = ap (λ n. take n (drop b.reader_index b.bytes)) nothing
  where
    nothing : b.writer_index - b.reader_index ≡ 0
    nothing = omega (arith, e.reader, e.writer)

pub read_line-received :
    (line : Bytes) (b : Buffer)
    → Emptied b
    → cheap_prepend + length line ≤ max_size
    → Returns (λ (l, b'). (l ≡ line) × Emptied b') (read_line (received line) b)
unfolding retrieve_as_string peek retrieve_all
read_line-received line b e h =
    Returns-bind (Read (contents b ++ line) (b.writer_index + length line) (length line))
      (λ (l, b'). (l ≡ line) × Emptied b') (read_fd b (received line)) _
      (read_fd-Holds line e.valid (omega (arith, e.writer, h)))
      λ (n, c) (r, k). (
        ap (λ m. take m (drop c.reader_index c.bytes)) (readable_bytes_lem k.valid)
            ∙ k.held
            ∙ ap (λ xs. xs ++ line) (contents-Emptied b e),
        record {
          valid = record {
            prepend = omega arith;
            ordered = omega arith;
            within = omega (arith, k.valid.prepend, k.valid.ordered, k.valid.within);
            sized = k.valid.sized;
          };
          reader = refl;
          writer = refl;
        },
      )

pub init-Emptied : Returns Emptied Buffer.init
unfolding Buffer.init readable_bytes
init-Emptied = record {
  valid = record {
    prepend = omega arith;
    ordered = omega arith;
    within = omega arith;
    sized = omega arith;
  };
  reader = refl;
  writer = refl;
}
