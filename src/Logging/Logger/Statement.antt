-- ===== src/Logging/Logger/Statement.antt =====
-- One statement of the log.
use libcpp.Prelude.{
  ℕ, ◌+◌, ◌≡◌, refl, ap, ap₂, ◌∙◌, Bool, true, false, [], ◌∷◌, ◌++◌, Option, some, if◌then◌else◌,
  Returns, Returns-bind, append_assoc,
}
use libcpp.Prelude.Bytes.{Bytes, codes}
use libcpp.Datetime.TimeStamp.{Tm, to_formatted_string}
use libcpp.Logging.Logger.{
  LogLevel, fatal, trace, debug, info, warn, error, Thread, Outcome, running, aborted, Macro, level,
  enabled, saved_errno, Place, write, destroy, record_format_time, head_text, construct, statement,
}
use libcpp.Logging.Logger.Line.{Cached, Sane, Timed, record_format_time-Timed}

-- A statement that writes a text.
pub record Entry : Type 0 where
  pub macro : Macro
  pub errno : ℕ
  pub place : Place
  pub now : ℕ
  pub text : Bytes

abbrev pub is_fatal : LogLevel → Bool
is_fatal fatal = true
is_fatal l = false

abbrev pub thread : Outcome → Thread
thread (running t) = t
thread (aborted t) = t

abbrev pub is_aborted : Outcome → Bool
is_aborted (running t) = false
is_aborted (aborted t) = true

module _ (gmtime : ℕ → Tm) (tid : Bytes) (strerror : ℕ → Bytes) where
  abbrev pub log_entry : Entry → Thread → Option Outcome
  log_entry e t =
      statement gmtime tid strerror e.macro e.errno e.place e.now
        (λ t'. some (running (write e.text t'))) t

  -- The start of the line of a statement, its time formatted anew.
  abbrev pub prefix : Entry → Bytes
  prefix e =
      (to_formatted_string gmtime e.now ++ codes " ")
      ++ head_text tid strerror (level e.macro) (saved_errno e.macro e.errno) e.place

  abbrev pub line : Entry → Bytes
  line e = (prefix e ++ e.text) ++ codes "\n"

  -- What a statement with the text `text` behind its head makes of the state.
  abbrev pub Logged : LogLevel → Bytes → Thread → Outcome → Type 0
  Logged l text t o =
      ((thread o).output ≡ t.output ++ (text ∷ []))
      × ((thread o).stream ≡ [])
      × Cached gmtime (thread o)
      × ((thread o).log_level ≡ t.log_level)
      × (is_aborted o ≡ is_fatal l)
      × ((thread o).flushes ≡ (if is_fatal l then t.flushes + 1 else t.flushes))

  pub destroy-Logged :
      (l : LogLevel) (t : Thread)
      → Cached gmtime t
      → Logged l (t.stream ++ codes "\n") t (destroy l t)
  unfolding destroy
  destroy-Logged trace t c = (refl, refl, c, refl, refl, refl)
  destroy-Logged debug t c = (refl, refl, c, refl, refl, refl)
  destroy-Logged info t c = (refl, refl, c, refl, refl, refl)
  destroy-Logged warn t c = (refl, refl, c, refl, refl, refl)
  destroy-Logged error t c = (refl, refl, c, refl, refl, refl)
  destroy-Logged fatal t c = (refl, refl, c, refl, refl, refl)

  -- The state when a statement writes its text: the stream has its head.
  abbrev pub Open : Bytes → Thread → Thread → Type 0
  Open text t t' =
      (t'.stream ≡ t.stream ++ text)
      × Cached gmtime t'
      × (t'.log_level ≡ t.log_level)
      × (t'.output ≡ t.output)
      × (t'.flushes ≡ t.flushes)

  pub construct-Open :
      (e : Entry) (t : Thread)
      → Sane gmtime e.now
      → Cached gmtime t
      → Returns (Open (prefix e) t) (
          construct gmtime tid strerror
            (level e.macro)
            (saved_errno e.macro e.errno)
            e.place
            e.now
            t)
  unfolding construct
  construct-Open e t s c =
      Returns-bind (Timed gmtime e.now t) (Open (prefix e) t) (record_format_time gmtime e.now t) _
        (record_format_time-Timed gmtime e.now t s c)
        λ t' (h, k, g, o, f). (
          ap
                (λ x.
                  x ++ head_text tid strerror (level e.macro) (saved_errno e.macro e.errno) e.place)
                h
              ∙ append_assoc t.stream (to_formatted_string gmtime e.now ++ codes " ") _,
          k,
          g,
          o,
          f,
        )

  -- A statement, if its body only writes to the stream what it is to.
  pub log_entry-Logged :
      (e : Entry) (t : Thread)
      → enabled e.macro t.log_level ≡ true
      → Sane gmtime e.now
      → Cached gmtime t
      → Returns (Logged (level e.macro) (t.stream ++ line e) t) (log_entry e t)
  unfolding statement
  log_entry-Logged e t on s c = rw on (
      Returns-bind (Open (prefix e) t) (Logged (level e.macro) (t.stream ++ line e) t)
        (construct gmtime tid strerror (level e.macro) (saved_errno e.macro e.errno) e.place e.now
          t)
        _ (construct-Open e t s c)
        λ t' (h, k, g, o, f).
          let (a, b, q, r, u, v) = destroy-Logged (level e.macro) (write e.text t') k in
          (
            a
                ∙ ap₂ (λ out st. out ++ (((st ++ e.text) ++ codes "\n") ∷ [])) o h
                ∙ ap (λ x. t.output ++ (x ∷ []))
                    (ap (λ x. x ++ codes "\n") (append_assoc t.stream (prefix e) e.text)
                      ∙ append_assoc t.stream (prefix e ++ e.text) (codes "\n")),
            b,
            q,
            r ∙ g,
            u,
            v ∙ ap (λ n. if is_fatal (level e.macro) then n + 1 else n) f,
          ))
