-- ===== src/Logging/Logger/Lines.antt =====
-- The lines of the log.
use libcpp.Prelude.{
  ℕ, ◌+◌, ◌≡◌, refl, sym, ap, ap₂, ◌∙◌, inl, inr, Bool, true, false, [], ◌∷◌, ◌++◌, List, Option,
  some, if◌then◌else◌, Bool-cases, Returns, Returns-bind, Returns-imp, append_assoc, append-nil,
  ◌>>=◌,
}
use libcpp.Prelude.Bytes.{Bytes}
use libcpp.Datetime.TimeStamp.{Tm}
use libcpp.Logging.Logger.{
  LogLevel, fatal, trace, debug, info, warn, error, Thread, Outcome, running, aborted, and_then,
  Macro, log, log_syserr, log_sysfatal, level, enabled, statement,
}
use libcpp.Logging.Logger.Line.{Cached, Sane}
use libcpp.Logging.Logger.Statement.{
  Entry, is_fatal, thread, is_aborted, log_entry, line, Logged, log_entry-Logged,
}

module _ (gmtime : ℕ → Tm) (tid : Bytes) (strerror : ℕ → Bytes) where
  abbrev pub log_all : List Entry → Thread → Option Outcome
  log_all [] t = some (running t)
  log_all (e ∷ es) t = log_entry gmtime tid strerror e t >>= and_then (log_all es)

  -- The lines of the statements that the level lets through, up to the first fatal one.
  abbrev pub lines : LogLevel → List Entry → List Bytes
  lines g [] = []
  lines g (e ∷ es) =
      if enabled e.macro g
      then line gmtime tid strerror e ∷ (if is_fatal (level e.macro) then [] else lines g es)
      else lines g es

  abbrev pub any_fatal : List Entry → Bool
  any_fatal [] = false
  any_fatal (e ∷ es) = if is_fatal (level e.macro) then true else any_fatal es

  abbrev pub AllSane : List Entry → Type 0
  AllSane [] = Unit
  AllSane (e ∷ es) = Sane gmtime e.now × AllSane es

  log_entry_off :
      (e : Entry) (t : Thread)
      → enabled e.macro t.log_level ≡ false
      → log_entry gmtime tid strerror e t ≡ some (running t)
  unfolding statement
  log_entry_off e t off = rw off refl

  -- What all statements make of the state.
  abbrev pub AllLogged : List Entry → Thread → Outcome → Type 0
  AllLogged es t o =
      ((thread o).output ≡ t.output ++ lines t.log_level es)
      × (is_aborted o ≡ any_fatal es)
      × ((thread o).flushes ≡ (if any_fatal es then t.flushes + 1 else t.flushes))

  fatal_enabled : (m : Macro) (g : LogLevel) → is_fatal (level m) ≡ true → enabled m g ≡ true
  fatal_enabled (log fatal) g h = refl
  fatal_enabled log_sysfatal g h = refl
  fatal_enabled (log trace) g h = absurd cc
  fatal_enabled (log debug) g h = absurd cc
  fatal_enabled (log info) g h = absurd cc
  fatal_enabled (log warn) g h = absurd cc
  fatal_enabled (log error) g h = absurd cc
  fatal_enabled log_syserr g h = absurd cc

  off_not_fatal : (m : Macro) (g : LogLevel) → enabled m g ≡ false → is_fatal (level m) ≡ false
  off_not_fatal m g off = elim (Bool-cases (is_fatal (level m))) [
    | inl f ↦ absurd (cc (off, fatal_enabled m g f))
    | inr f ↦ f
  ]

  skip-AllLogged :
      (e : Entry) (es : List Entry) (t : Thread) (o : Outcome)
      → enabled e.macro t.log_level ≡ false
      → AllLogged es t o
      → AllLogged (e ∷ es) t o
  skip-AllLogged e es t o off h = rw (off, off_not_fatal e.macro t.log_level off) h

  next-AllLogged :
      (e : Entry) (es : List Entry) (t : Thread)
      → enabled e.macro t.log_level ≡ true
      → t.stream ≡ []
      → ((t' : Thread)
          → Cached gmtime t'
          → t'.stream ≡ []
          → Returns (AllLogged es t') (log_all es t'))
      → (o : Outcome)
      → Logged gmtime tid strerror (level e.macro) (t.stream ++ line gmtime tid strerror e) t o
      → Returns (AllLogged (e ∷ es) t) (and_then (log_all es) o)
  next-AllLogged e es t on n all (aborted t') (a, b, c, g, u, v) =
      rw (on, sym u) (rw n at a, refl, rw (sym u) at v)
  next-AllLogged e es t on n all (running t') (a, b, c, g, u, v) =
      Returns-imp (AllLogged es t') (AllLogged (e ∷ es) t) (log_all es t') (all t' c b)
        λ o (h, k, f).
          rw (on, sym u)
            (
              h
                  ∙ ap₂ (λ out l. out ++ lines l es) a g
                  ∙ append_assoc t.output ((t.stream ++ line gmtime tid strerror e) ∷ [])
                      (lines t.log_level es)
                  ∙ ap
                      (λ st.
                        t.output ++ ((st ++ line gmtime tid strerror e) ∷ lines t.log_level es))
                      n,
              k,
              f ∙ ap (λ m. if any_fatal es then m + 1 else m) (rw (sym u) at v),
            )

  -- Statements that write texts, in a thread whose stream is empty, at times from the second second of the epoch
  -- to the year 9999, whatever second the thread has cached with its text: each that the level lets
  -- through has one line output, in their order, its time formatted as TimeStamp::toFormattedString does;
  -- the first fatal one has the output flushed and ends the process, and nothing is output behind it.
  pub log_all-AllLogged :
      (es : List Entry) (t : Thread)
      → AllSane es
      → Cached gmtime t
      → t.stream ≡ []
      → Returns (AllLogged es t) (log_all es t)
  log_all-AllLogged [] t s c n = (sym (append-nil t.output), refl, refl)
  log_all-AllLogged (e ∷ es) t (s, ss) c n = elim (Bool-cases (enabled e.macro t.log_level)) [
    | inr off ↦ rw (log_entry_off e t off) (
        Returns-imp (AllLogged es t) (AllLogged (e ∷ es) t) (log_all es t)
          (log_all-AllLogged es t ss c n) λ o. skip-AllLogged e es t o off)
    | inl on ↦
        Returns-bind
          (Logged gmtime tid strerror (level e.macro) (t.stream ++ line gmtime tid strerror e) t)
          (AllLogged (e ∷ es) t) (log_entry gmtime tid strerror e t) (and_then (log_all es))
          (log_entry-Logged gmtime tid strerror e t on s c)
          (next-AllLogged e es t on n λ t' c' n'. log_all-AllLogged es t' ss c' n')
  ]
