-- ===== src/Net/TcpConnection/Send.antt =====
-- `sendInLoop`: what is sent joins the stream once and in order, however much of it `write` takes.
use libcpp.Prelude.{
  ℕ, ◌+◌, ◌≤◌, ◌≡◌, ◌∙◌, subst, inl, inr, true, some, List, [], ◌∷◌, ◌++◌, arith, ltb, Bool-cases,
  Returns, Returns-bind, Returns-imp, ◌>>=◌, length, take, drop, take_of_le, take-append-drop,
  append-nil, append_assoc, SysResult, count, fail, refl,
}
use libcpp.Io.Buffer.{max_size}
use libcpp.Io.Buffer.Room.{contents, length-contents}
use libcpp.Net.TcpConnection.{
  TcpConnection, Callbacks, notify, may_write, attempt, keep_rest, send_in_loop,
}
use libcpp.Net.TcpConnection.Stream.{Inv, stream, Sent, keep_rest-Sent}

-- The write-complete callback, if there is one, sends nothing itself.
abbrev pub Quiet : Callbacks → Type 0
Quiet cb = (c : TcpConnection) → Inv c → Returns (Sent c []) (notify cb.write_complete c)

pub Sent-trans :
    {c c' c'' : TcpConnection} (xs ys : List ℕ)
    → Sent c xs c'
    → Sent c' ys c''
    → Sent c (xs ++ ys) c''
Sent-trans {c} xs ys h k = record {
  inv = k.inv;
  whole = rw (k.whole, h.whole) (append_assoc (stream c) xs ys);
}

empty_of_may_write :
    (c : TcpConnection) → Inv c → may_write c ≡ true → contents c.output_buffer ≡ []
unfolding may_write
empty_of_may_write c v h =
    empty (contents c.output_buffer) (ground (arith, length-contents v.out, h))
  where
    empty : (l : List ℕ) → length l ≡ 0 → l ≡ []
    empty [] e = refl
    empty (x ∷ l) e = ground arith

keep_rest-none :
    (n : ℕ) (msg : List ℕ) (c : TcpConnection) → length msg ≤ n → keep_rest n msg c ≡ some c
unfolding keep_rest
keep_rest-none n msg c h = ground arith

-- What a direct write of `n` bytes leaves.
wrote : ℕ → List ℕ → TcpConnection → TcpConnection
wrote n msg c = record c { wire = c.wire ++ take n msg }

wrote-Sent :
    (n : ℕ) (msg : List ℕ) (c : TcpConnection)
    → Inv c
    → may_write c ≡ true
    → Sent c (take n msg) (wrote n msg c)
unfolding wrote
wrote-Sent n msg c v h = record {
  inv = record { out = v.out; reading = v.reading; wants = v.wants };
  whole = rw (empty_of_may_write c v h, append-nil (c.wire ++ take n msg), append-nil c.wire) refl;
}

module _ (cb : Callbacks) (quiet : Quiet cb) (msg : List ℕ) (c : TcpConnection) (v : Inv c)
    (fits : c.output_buffer.writer_index + length msg ≤ max_size) where
  wrote-part : (n : ℕ) → may_write c ≡ true → Returns (Sent c msg) (keep_rest n msg (wrote n msg c))
  unfolding wrote
  wrote-part n h =
      Returns-imp (Sent (wrote n msg c) (drop n msg)) (Sent c msg) (keep_rest n msg (wrote n msg c))
        (keep_rest-Sent n msg (wrote n msg c) (wrote-Sent n msg c v h).inv fits)
        λ c' k.
          subst (λ xs. Sent c xs c') (take-append-drop n msg)
            (Sent-trans (take n msg) (drop n msg) (wrote-Sent n msg c v h) k)

  wrote-all :
      (n : ℕ)
      → may_write c ≡ true
      → length msg ≤ n
      → Returns (Sent c msg) (notify cb.write_complete (wrote n msg c) >>= keep_rest n msg)
  unfolding wrote
  wrote-all n h e =
      Returns-bind (Sent (wrote n msg c) []) (Sent c msg) (notify cb.write_complete (wrote n msg c))
        (keep_rest n msg) (quiet (wrote n msg c) (wrote-Sent n msg c v h).inv)
        λ c' k. rw (keep_rest-none n msg c' e) (
          subst (λ xs. Sent c xs c') (append-nil (take n msg) ∙ take_of_le n msg e)
            (Sent-trans (take n msg) [] (wrote-Sent n msg c v h) k))

  -- `sendInLoop`, in the loop's thread, of a message that the output buffer may hold never aborts,
  -- if the output buffer is valid, the channel waits for writability just if bytes wait, and the
  -- write-complete callback sends nothing. Whatever `write` returns, the bytes sent before, then the whole message, are on the wire or wait in the output
  -- buffer, in this order; and the channel waits for writability just if some of them wait.
  pub send_in_loop-Sent :
      (written : SysResult) → Returns (Sent c msg) (send_in_loop cb true written msg c)
  unfolding send_in_loop attempt wrote
  send_in_loop-Sent written = elim (Bool-cases (may_write c)) [
    | inr f ↦ rw f (keep_rest-Sent 0 msg c v fits)
    | inl t ↦ direct written t
  ]
    where
      direct :
          (written : SysResult)
          → may_write c ≡ true
          → Returns (Sent c msg) (send_in_loop cb true written msg c)
      direct (fail errno) t = rw t (keep_rest-Sent 0 msg c v fits)
      direct (count n) t = elim (Bool-cases (ltb n (length msg))) [
        | inl h ↦ rw (t, h) (wrote-part n t)
        | inr h ↦ rw (t, h) (wrote-all n t (ground (arith, h)))
      ]
