-- ===== src/Logging/Logger/Nested.antt =====
-- A statement whose expressions log: both write to the one stream of the thread.
use libcpp.Prelude.{
  ◌≡◌, ap, ap₂, ◌∙◌, true, false, [], ◌∷◌, ◌++◌, Option, some, Returns, Returns-bind, append_assoc,
  ◌>>=◌, ℕ,
}
use libcpp.Prelude.Bytes.{Bytes, codes}
use libcpp.Datetime.TimeStamp.{Tm}
use libcpp.Logging.Logger.{
  Thread, Outcome, running, aborted, and_then, level, enabled, saved_errno, write, destroy,
  construct, statement,
}
use libcpp.Logging.Logger.Line.{Cached, Sane}
use libcpp.Logging.Logger.Statement.{
  Entry, is_fatal, thread, prefix, line, log_entry, Logged, Open, construct-Open, log_entry-Logged,
  destroy-Logged,
}

module _ (gmtime : ℕ → Tm) (tid : Bytes) (strerror : ℕ → Bytes) where
  -- `LOG_… << text << f() << after`, where `f` has the statement `i` and then gives `after`.
  abbrev pub nested : Entry → Entry → Bytes → Thread → Option Outcome
  nested e i after t =
      statement gmtime tid strerror e.macro e.errno e.place e.now
        (λ t'.
          log_entry gmtime tid strerror i (write e.text t')
          >>= and_then (λ t''. some (running (write after t''))))
        t

  abbrev pub Mixed : Entry → Entry → Bytes → Thread → Outcome → Type 0
  Mixed e i after t o =
      (thread o).output
      ≡ t.output
        ++ (((prefix gmtime tid strerror e ++ e.text) ++ line gmtime tid strerror i)
            ∷ (after ++ codes "\n")
            ∷ [])

  close :
      (e i : Entry) (after : Bytes) (t t' : Thread)
      → t.stream ≡ []
      → is_fatal (level i.macro) ≡ false
      → Open gmtime tid strerror (prefix gmtime tid strerror e) t t'
      → (o : Outcome)
      → Logged gmtime tid strerror
          (level i.macro)
          ((write e.text t').stream ++ line gmtime tid strerror i)
          (write e.text t')
          o
      → Returns
          (λ o'.
            Returns (Mixed e i after t) (and_then (λ t''. some (destroy (level e.macro) t'')) o'))
          (and_then (λ t''. some (running (write after t''))) o)
  close e i after t t' n nf (h, k, g, o, f) (aborted x) (a, b, c, q, u, v) = absurd (cc (u, nf))
  close e i after t t' n nf (h, k, g, o, f) (running x) (a, b, c, q, u, v) =
      let (a', b', c', q', u', v') =
        destroy-Logged gmtime tid strerror (level e.macro) (write after x) c in
      a'
      ∙ ap₂ (λ out st. out ++ (((st ++ after) ++ codes "\n") ∷ [])) a b
      ∙ append_assoc t'.output (((t'.stream ++ e.text) ++ line gmtime tid strerror i) ∷ [])
          ((after ++ codes "\n") ∷ [])
      ∙ ap₂
          (λ out st.
            out ++ (((st ++ e.text) ++ line gmtime tid strerror i) ∷ (after ++ codes "\n") ∷ []))
          o (h ∙ ap (λ st. st ++ prefix gmtime tid strerror e) n)

  -- A statement is evaluated within another one, behind a text of the other: the level lets both through, the
  -- inner one is not fatal, the times are from the second second of the epoch to the year 9999, and the
  -- stream of the thread is empty before. Then what is output first is the start of the outer line with
  -- the inner line behind it, and what follows in the outer statement is a line without a head.
  pub nested-Mixed :
      (e i : Entry) (after : Bytes) (t : Thread)
      → enabled e.macro t.log_level ≡ true
      → enabled i.macro t.log_level ≡ true
      → is_fatal (level i.macro) ≡ false
      → Sane gmtime e.now
      → Sane gmtime i.now
      → Cached gmtime t
      → t.stream ≡ []
      → Returns (Mixed e i after t) (nested e i after t)
  unfolding statement
  nested-Mixed e i after t on on' nf s s' c n = rw on (
      Returns-bind (Open gmtime tid strerror (prefix gmtime tid strerror e) t) (Mixed e i after t)
        (construct gmtime tid strerror (level e.macro) (saved_errno e.macro e.errno) e.place e.now
          t)
        _ (construct-Open gmtime tid strerror e t s c)
        λ t' p.
          Returns-bind
            (λ o'.
              Returns (Mixed e i after t) (and_then (λ t''. some (destroy (level e.macro) t'')) o'))
            (Mixed e i after t) _ _
            (Returns-bind _ _ (log_entry gmtime tid strerror i (write e.text t')) _
              (log_entry-Logged gmtime tid strerror i (write e.text t') (rw p.2 on') s' p.1)
              (close e i after t t' n nf p))
            (λ o' r. r))
