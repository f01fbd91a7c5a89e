-- ===== src/Kcp/KcpLayer/Server.antt =====
-- The connections of a server.
use libcpp.Prelude.{
  ℕ, ◌+◌, ◌%◌, ◌^◌, ◌≤◌, ◌<◌, ◌≡◌, ◌≢◌, refl, ◌∙◌, ap, sym, subst, inl, inr, false, none, [], ◌∷◌,
  arith, ◌>>=◌, if◌then◌else◌, ltb, ◌==◌, Bool-cases, Option-cases, length, Returns,
}
use libcpp.Prelude.Bytes.{Bytes, starts_with, bytes_eq}
use libcpp.Kcp.KcpUtils.{handshake_syn, is_handshake_syn, is_handshake_ack, is_close_packet}
use libcpp.Kcp.KcpLayer.{
  Ikcp, KcpLayer, notify_connection, notify_data, recv_udp_msg, kcp_update, handle_syn, handle_data,
  handle_read, get_connection_conv,
}
use libcpp.Kcp.KcpLayer.Handshake.{
  handle_read-syn, kcp_update_lem, started_lem, updated, syn_entry, handle_syn_lem,
}

-- Each id from 1 up to the next one has a control block.
abbrev pub Known : {Cb : Type 0} → KcpLayer Cb → Type 0
Known l = (k : ℕ) → 0 < k → k < l.next_conv → (l.connections k).kcpcb ≢ none

module _ {Cb : Type 0} (ikcp : Ikcp Cb) (now : ℕ) where
  some_block :
      (id k : ℕ) (cb : Cb) (l : KcpLayer Cb)
      → (k ≢ id → (l.connections k).kcpcb ≢ none)
      → ((updated ikcp now id cb l).connections k).kcpcb ≢ none
  some_block id k cb l h = elim (Bool-cases (k == id)) [
    | inl e ↦ rw e (λ q. cc)
    | inr e ↦ rw e (h (ground (arith, e)))
  ]

  next_conv-handle_syn :
      (peer : ℕ) (l : KcpLayer Cb)
      → l.next_conv + 1 < 2 ^ 32
      → (handle_syn ikcp now peer l).next_conv ≡ l.next_conv + 1
  unfolding handle_syn notify_connection
  next_conv-handle_syn peer l h =
      ap (λ k. (k.next_conv + 1) % 2 ^ 32)
        (started_lem ikcp now l.next_conv (syn_entry ikcp now l.next_conv peer l))
      ∙ omega (arith, h)

  handle_syn-Known :
      (peer : ℕ) (l : KcpLayer Cb)
      → l.next_conv + 1 < 2 ^ 32
      → Known l
      → Known (handle_syn ikcp now peer l)
  unfolding handle_syn notify_connection
  handle_syn-Known peer l h v k a b =
      let entry = syn_entry ikcp now l.next_conv peer l in
      let cb = ikcp.nodelay (ikcp.create l.next_conv) in
      subst (λ (m : KcpLayer Cb). (m.connections k).kcpcb ≢ none)
        (sym (started_lem ikcp now l.next_conv entry))
        (some_block l.next_conv k cb entry λ other.
          let n : (k == l.next_conv) ≡ false = ground (arith, other) in
          rw n (v k a (omega (arith, b, next_conv-handle_syn peer l h, other))))

  handle_data-Known :
      (payload : Bytes) (l : KcpLayer Cb)
      → 0 < ikcp.getconv payload
      → ikcp.getconv payload < l.next_conv
      → Known l
      → Returns (λ l'. Known l' × (l'.next_conv ≡ l.next_conv)) (handle_data ikcp now payload l)
  unfolding handle_data notify_data
  handle_data-Known payload l h b v =
      elim (Option-cases (l.connections (ikcp.getconv payload)).kcpcb) [
        | inl e ↦ absurd (v (ikcp.getconv payload) h b e)
        | inr (cb, e) ↦ rw e (elim (Bool-cases (ltb 24 (length payload))) [
          | inl q ↦ rw q (kept (ikcp.input payload cb))
          | inr q ↦ rw q (kept (ikcp.input payload cb))
        ])
      ]
    where
      kept :
          (cb : Cb)
          → let m = kcp_update ikcp now (ikcp.getconv payload) cb l in
            ((k : ℕ) → 0 < k → k < m.next_conv → (m.connections k).kcpcb ≢ none)
            × (m.next_conv ≡ l.next_conv)
      kept cb =
          rw (kcp_update_lem ikcp now (ikcp.getconv payload) cb l)
            ((λ k a c. some_block (ikcp.getconv payload) k cb l λ n. v k a c), refl)

  -- A server that gave a control block to each id so far, is given a message of 1500 bytes at most
  -- that is no answer to a handshake; if it is neither empty, a handshake nor a close packet, it is for
  -- one of these ids. Then it fails in nothing, and again each id has a control block. Only a handshake
  -- makes one more id, and ids are left for it.
  pub handle_read-Known :
      (peer : ℕ) (msg : Bytes) (l : KcpLayer Cb)
      → Known l
      → l.next_conv + 1 < 2 ^ 32
      → length msg ≤ 1500
      → is_handshake_ack msg ≡ false
      → (0 < length msg
          → is_handshake_syn msg ≡ false
          → is_close_packet msg ≡ false
          → (0 < ikcp.getconv msg) × (ikcp.getconv msg < l.next_conv))
      → Returns
          (λ l'.
            Known l'
            × (l'.next_conv ≡ (if is_handshake_syn msg then l.next_conv + 1 else l.next_conv)))
          (handle_read ikcp now peer msg l)
  unfolding handle_read recv_udp_msg is_handshake_syn starts_with bytes_eq
  handle_read-Known peer [] l v h short no_ack known = (v, refl)
  handle_read-Known peer (c ∷ s) l v h short no_ack known =
      let msg = c ∷ s in
      let full : (length msg == 0) ≡ false = ground arith in
      let fits : ltb 1500 (length msg) ≡ false = ground (arith, short) in
      rw (full, fits)
        (elim (Bool-cases (is_handshake_syn msg)) [
          | inl syn ↦ rw syn (handle_syn-Known peer l h v, next_conv-handle_syn peer l h)
          | inr no_syn ↦ elim (Bool-cases (is_close_packet msg)) [
            | inl close ↦ rw (no_syn, no_ack, close) (v, refl)
            | inr no_close ↦
                let (low, high) = known (omega arith) no_syn no_close in
                rw (no_syn, no_ack, no_close) (handle_data-Known msg l low high v)
          ]
        ])

  -- Two handshakes that come before `getConnectionConv` is called give it the sum of their ids: the id of
  -- neither.
  pub convs_add :
      (first second : ℕ) (l : KcpLayer Cb)
      → l.next_conv + 1 < 2 ^ 32
      → l.conn_fd ≡ 0
      → 0 < l.next_conv
      → Returns
          (λ l'. (get_connection_conv l').0 ≡ l.next_conv + (l.next_conv + 1))
          (handle_read ikcp now first handshake_syn l >>= handle_read ikcp now second handshake_syn)
  unfolding get_connection_conv
  convs_add first second l h z p =
      let once = handle_syn ikcp now first l in
      rw
        (
          handle_read-syn ikcp now first l,
          handle_read-syn ikcp now second once,
          (handle_syn_lem ikcp now second once).2,
          (handle_syn_lem ikcp now first l).2,
          next_conv-handle_syn first l h,
          z,
        )
        (ground (arith, h, p))
