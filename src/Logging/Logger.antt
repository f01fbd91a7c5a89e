-- ===== src/Logging/Logger.antt =====
-- src/logging/Logging.h and Logging.cc: the logger of one thread, with the level, which all threads share.
-- A char array is the text up to its NUL. gmtime_r, strerror_r and the thread's id are parameters.
pub mod Line
pub mod Statement
pub mod Lines
pub mod Nested
mod Tests
use libcpp.Prelude.{
  ℕ, ◌+◌, ◌-◌, ◌/◌, ◌%◌, Bool, true, false, Option, none, some, List, [], ◌∷◌, ◌++◌, ◌>>=◌, ◌>>◌,
  assert, ltb, leb, ◌==◌, if◌then◌else◌, length, take,
}
use libcpp.Prelude.Bytes.{Bytes, codes}
use libcpp.Prelude.Decimal.{decimal, padded}
use libcpp.Datetime.TimeStamp.{micro_seconds_per_second, Tm, date_text, snprintf}

pub data LogLevel : Type 0 where
  trace : LogLevel
  debug : LogLevel
  info : LogLevel
  warn : LogLevel
  error : LogLevel
  fatal : LogLevel

abbrev pub rank : LogLevel → ℕ
rank trace = 0
rank debug = 1
rank info = 2
rank warn = 3
rank error = 4
rank fatal = 5

abbrev pub color : LogLevel → Bytes
color trace = 27 ∷ codes "[1;37m"
color debug = 27 ∷ codes "[0;36m"
color info = 27 ∷ codes "[0;32;32m"
color warn = 27 ∷ codes "[1;33m"
color error = 27 ∷ codes "[0;35m"
color fatal = 27 ∷ codes "[0;32;31m"

abbrev pub end_color : Bytes
end_color = 27 ∷ codes "[m"

abbrev pub level_name : LogLevel → Bytes
level_name trace = codes "TRACE "
level_name debug = codes "DEBUG "
level_name info = codes "INFO  "
level_name warn = codes "WARN  "
level_name error = codes "ERROR "
level_name fatal = codes "FATAL "

-- `output` has what `g_output` was called with, and `flushes` counts the calls of `g_flush`.
pub record Thread : Type 0 where
  pub log_level : LogLevel
  pub stream : Bytes
  pub seconds : ℕ
  pub time : Bytes
  pub output : List Bytes
  pub flushes : ℕ

abbrev pub init : Thread
init = record { log_level = trace; stream = []; seconds = 0; time = []; output = []; flushes = 0 }

pub data Outcome : Type 0 where
  running : Thread → Outcome
  aborted : Thread → Outcome

abbrev pub and_then : (Thread → Option Outcome) → Outcome → Option Outcome
and_then f (running t) = f t
and_then f (aborted t) = some (aborted t)

-- The macros.
pub data Macro : Type 0 where
  log : LogLevel → Macro
  log_syserr : Macro
  log_sysfatal : Macro

abbrev pub level : Macro → LogLevel
level (log l) = l
level log_syserr = error
level log_sysfatal = fatal

-- Whether the `if` of the macro lets it through.
abbrev pub enabled : Macro → LogLevel → Bool
enabled (log trace) g = leb (rank g) (rank trace)
enabled (log debug) g = leb (rank g) (rank debug)
enabled (log info) g = leb (rank g) (rank info)
enabled m g = true

-- `savedErrno` of the two constructors.
abbrev pub saved_errno : Macro → ℕ → ℕ
saved_errno (log l) errno = 0
saved_errno m errno = errno

-- Where a macro stands.
pub record Place : Type 0 where
  pub file : Bytes
  pub func : Bytes
  pub line : ℕ

-- Behind the last slash: the rest, if there is one, after those seen before.
abbrev pub basename_from : Bytes → Bytes → Bytes
basename_from base [] = base
basename_from base (c ∷ s) = basename_from (if c == b'/' then s else base) s

unfoldable pub basename : Bytes → Bytes
basename file = basename_from file file

-- What is in the array after a text is written to offset 17: nothing of it, if a NUL stands before.
abbrev pub write_at_17 : Bytes → Bytes → Bytes
write_at_17 time text = if ltb (length time) 17 then time else take 17 time ++ text

abbrev pub write : Bytes → Thread → Thread
write text t = record t { stream = t.stream ++ text }

-- `stream_ << '\n'`, and what follows it in the destructor.
unfoldable pub destroy : LogLevel → Thread → Outcome
destroy l t =
    let buf = t.stream ++ codes "\n" in
    let t' = record t { stream = []; output = t.output ++ (buf ∷ []) } in
    elim l [ fatal ↦ aborted (record t' { flushes = t'.flushes + 1 }) | _ ↦ running t' ]

abbrev pub set_log_level : LogLevel → Thread → Thread
set_log_level l t = record t { log_level = l }

module _ (tid : Bytes) (strerror : ℕ → Bytes) where
  abbrev pub errno_text : ℕ → Bytes
  errno_text errno =
      if errno == 0
      then []
      else strerror errno ++ (codes " (errno=" ++ (decimal errno ++ codes ") "))

  -- What the constructor writes behind the time.
  abbrev pub head_text : LogLevel → ℕ → Place → Bytes
  head_text l errno p =
      tid
      ++ (codes " "
          ++ (color l
              ++ (level_name l
                  ++ (end_color
                      ++ (basename p.file
                          ++ (codes "/"
                              ++ (p.func
                                  ++ (codes ":"
                                      ++ (decimal p.line
                                          ++ (codes " - " ++ errno_text errno))))))))))

module _ (gmtime : ℕ → Tm) where
  -- The cached text of the second.
  abbrev pub renew_time : ℕ → Thread → Option Thread
  renew_time seconds t =
      if t.seconds == seconds
      then some t
      else (assert (length (date_text (gmtime seconds)) == 17)
          >> some (record t { seconds = seconds; time = snprintf 32 (date_text (gmtime seconds)) }))

  unfoldable pub record_format_time : ℕ → Thread → Option Thread
  record_format_time now t = do
    t' ← renew_time (now / micro_seconds_per_second) t
    let microseconds = now % micro_seconds_per_second
    let tail = snprintf 15 (codes "." ++ (padded b'0' 6 microseconds ++ codes "Z "))
    let time = write_at_17 t'.time tail
    some (write time (record t' { time = time }))

  module _ (tid : Bytes) (strerror : ℕ → Bytes) where
    unfoldable pub construct : LogLevel → ℕ → Place → ℕ → Thread → Option Thread
    construct l errno p now t = do
      t' ← record_format_time now t
      some (write (head_text tid strerror l errno p) t')

    -- A statement `LOG_… << … << …`, with the time and errno that it finds.
    unfoldable pub statement :
        Macro → ℕ → Place → ℕ → (Thread → Option Outcome) → Thread → Option Outcome
    statement m errno p now body t =
        if enabled m t.log_level
        then (construct (level m) (saved_errno m errno) p now t >>= λ t'.
            (body t' >>= and_then (λ t''. some (destroy (level m) t''))))
        else some (running t)
