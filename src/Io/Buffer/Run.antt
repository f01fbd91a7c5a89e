-- ===== src/Io/Buffer/Run.antt =====
-- Any sequence of calls on class Buffer, against a plain queue of bytes.
use mathlib.Core.Option
use native.Mathlib.Nat.{add-zero}
use libcpp.Prelude.{
  ℕ, ◌+◌, ◌≤◌, ◌≡◌, refl, ◌∙◌, ap, Option, none, some, List, [], ◌∷◌, ◌++◌, arith, length, drop,
  Returns, ◌>>=◌, Bool-cases, inl, inr, SysResult, fail, leb, if◌then◌else◌, tests,
}
use libcpp.Io.Buffer.{
  Buffer, max_size, retrieve, retrieve_all, append, Incoming, received, failed, read_fd,
}
use libcpp.Io.Buffer.Room.{IsValid, contents, length-contents}
use libcpp.Io.Buffer.Queue.{Holds, append-Holds, retrieve-Holds, retrieve_too_much}
use libcpp.Io.Buffer.Read.{Read, read_fd-Holds}

pub data Op : Type 0 where
  appends : List ℕ → Op
  retrieves : ℕ → Op
  clears : Op
  reads : Incoming → Op

pub step : Buffer → Op → Option Buffer
step b (appends new) = append b new
step b (retrieves len) = retrieve b len
step b clears = some (retrieve_all b)
step b (reads from) = Option.map (λ p. p.1) (read_fd b from)

pub run : Buffer → List Op → Option Buffer
run b [] = some b
run b (op ∷ ops) = step b op >>= λ b'. run b' ops

-- The same calls on a queue of bytes without bound.
unfoldable pub step_queue : List ℕ → Op → Option (List ℕ)
step_queue q (appends new) = some (q ++ new)
step_queue q (retrieves len) = if leb len (length q) then some (drop len q) else none
step_queue q clears = some []
step_queue q (reads (received new)) = some (q ++ new)
step_queue q (reads (failed errno)) = some q

unfoldable pub run_queue : List ℕ → List Op → Option (List ℕ)
run_queue q [] = some q
run_queue q (op ∷ ops) = step_queue q op >>= λ q'. run_queue q' ops

-- The bytes that a call may add.
abbrev pub cost : Op → ℕ
cost (appends new) = length new
cost (retrieves len) = 0
cost clears = 0
cost (reads (received new)) = length new
cost (reads (failed errno)) = 0

abbrev pub total : List Op → ℕ
total [] = 0
total (op ∷ ops) = cost op + total ops

-- Both stop, or the buffer holds the queue.
abbrev Agrees : ℕ → Option (List ℕ) → Option Buffer → Type 0
Agrees limit none none = Unit
Agrees limit (some q) (some b) = Holds q limit b
Agrees limit none (some b) = ⊥
Agrees limit (some q) none = ⊥

Returns-Agrees :
    (limit : ℕ) (q : List ℕ) (o : Option Buffer)
    → Returns (Holds q limit) o
    → Agrees limit (some q) o
Returns-Agrees limit q none h = h
Returns-Agrees limit q (some b) h = h

Read-Agrees :
    (limit n : ℕ) (q : List ℕ) (o : Option (SysResult × Buffer))
    → Returns (Read q limit n) o
    → Agrees limit (some q) (Option.map (λ p. p.1) o)
Read-Agrees limit n q none h = h
Read-Agrees limit n q (some p) h = h.1

cleared : {b : Buffer} → IsValid b → Holds [] b.writer_index (retrieve_all b)
unfolding retrieve_all
cleared v = record {
  valid = record {
    prepend = omega arith;
    ordered = omega arith;
    within = omega (arith, v.prepend, v.ordered, v.within);
    sized = v.sized;
  };
  held = refl;
  early = omega (arith, v.prepend, v.ordered);
}

read_fd_failed : (b : Buffer) (errno : ℕ) → read_fd b (failed errno) ≡ some (fail errno, b)
unfolding read_fd
read_fd_failed b errno = refl

step-Agrees :
    {b : Buffer} (op : Op)
    → IsValid b
    → b.writer_index + cost op ≤ max_size
    → Agrees (b.writer_index + cost op) (step_queue (contents b) op) (step b op)
unfolding step step_queue
step-Agrees {b} (appends new) v h = Returns-Agrees _ _ _ (append-Holds new v h)
step-Agrees {b} (retrieves len) v h = elim (Bool-cases (leb len (length (contents b)))) [
  | inl t ↦
      rw (t, add-zero b.writer_index)
        (Returns-Agrees _ _ _ (retrieve-Holds len v (omega (tests, length-contents v))))
  | inr t ↦ rw (t, retrieve_too_much b len (ground (arith, length-contents v))) tt
]
step-Agrees {b} clears v h = rw (add-zero b.writer_index) (cleared v)
step-Agrees {b} (reads (received new)) v h = Read-Agrees _ _ _ _ (read_fd-Holds new v h)
step-Agrees {b} (reads (failed errno)) v h =
    rw (read_fd_failed b errno, add-zero b.writer_index)
      (record { valid = v; held = refl; early = omega arith })

-- No sequence of calls tells a valid buffer from a queue of bytes: both fail the same calls (a
-- `retrieve` of more than is there), or end with the same unread bytes. The vector must be able
-- to take all the bytes that the calls add.
pub run_refines :
    (ops : List Op) (b : Buffer)
    → IsValid b
    → b.writer_index + total ops ≤ max_size
    → Option.map contents (run b ops) ≡ run_queue (contents b) ops
unfolding run run_queue
run_refines [] b v h = refl
run_refines (op ∷ ops) b v h =
    go (run_refines ops) (step_queue (contents b) op) (step b op) (step-Agrees op v (omega arith))
  where
    go :
        ((b' : Buffer)
          → IsValid b'
          → b'.writer_index + total ops ≤ max_size
          → Option.map contents (run b' ops) ≡ run_queue (contents b') ops)
        → (q : Option (List ℕ)) (o : Option Buffer) → Agrees (b.writer_index + cost op) q o
        → Option.map contents (o >>= λ b'. run b' ops) ≡ (q >>= λ q'. run_queue q' ops)
    go rest none none a = refl
    go rest (some q) (some b') a =
        rest b' a.valid (omega (arith, a.early)) ∙ ap (λ xs. run_queue xs ops) a.held
    go rest none (some b') a = elim a [ ]
    go rest (some q) none a = elim a [ ]
