-- ===== src/Logging/Logger/Tests.antt =====
-- A thread that logs at second 12 of the epoch.
use libcpp.Prelude.{ℕ, ◌≡◌, refl, [], ◌∷◌, ◌++◌, Returns, arith, true, ◌+◌}
use libcpp.Prelude.Bytes.{Bytes, codes}
use libcpp.Prelude.Decimal.{decimal, padded, digits}
use libcpp.Datetime.TimeStamp.{Tm, to_formatted_string}
use libcpp.Datetime.TimeStamp.Text.{IsDate}
use libcpp.Logging.Logger.{
  Thread, init, log, log_sysfatal, info, debug, basename, set_log_level, Place,
}
use libcpp.Logging.Logger.Statement.{Entry, thread, is_aborted, line, prefix}
use libcpp.Logging.Logger.Lines.{log_all, log_all-AllLogged}
use libcpp.Logging.Logger.Nested.{nested, nested-Mixed}

abbrev epoch : ℕ → Tm
epoch s = record { tm_year = 70; tm_mon = 0; tm_mday = 1; tm_hour = 0; tm_min = 0; tm_sec = 12 }

abbrev tid : Bytes
tid = codes "7"

abbrev strerror : ℕ → Bytes
strerror e = codes "No such file"

abbrev place : Place
place = record { file = codes "a/b/c.cc"; func = codes "f"; line = 3 }

abbrev entry_info : Entry
entry_info = record {
  macro = log info;
  errno = 2;
  place = place;
  now = 12000345;
  text = codes "one";
}

abbrev entry_debug : Entry
entry_debug = record {
  macro = log debug;
  errno = 2;
  place = place;
  now = 12000346;
  text = codes "no";
}

abbrev entry_fatal : Entry
entry_fatal = record {
  macro = log_sysfatal;
  errno = 2;
  place = place;
  now = 12000347;
  text = codes "two";
}

is_date : IsDate (epoch 12)
is_date = record {
  year = omega arith;
  month = omega arith;
  day = omega arith;
  hour = omega arith;
  minute = omega arith;
  second = omega arith;
}

abbrev quiet : Thread
quiet = set_log_level info init

time_runs : to_formatted_string epoch 12000345 ≡ codes "19700101 00:00:12.000345Z"
unfolding to_formatted_string padded decimal digits
time_runs = refl

basename_runs : basename (codes "a/b/c.cc") ≡ codes "c.cc"
unfolding basename
basename_runs = refl

log_all-AllLogged_example :
    Returns
      (λ o.
        ((thread o).output
          ≡ line epoch tid strerror entry_info ∷ line epoch tid strerror entry_fatal ∷ [])
        × (is_aborted o ≡ true)
        × ((thread o).flushes ≡ 0 + 1))
      (log_all epoch tid strerror (entry_debug ∷ entry_info ∷ entry_fatal ∷ entry_info ∷ []) quiet)
log_all-AllLogged_example =
    log_all-AllLogged epoch tid strerror (entry_debug ∷ entry_info ∷ entry_fatal ∷ entry_info ∷ [])
      quiet
      (
        (omega arith, is_date),
        ((omega arith, is_date), ((omega arith, is_date), ((omega arith, is_date), tt))),
      )
      (λ z. absurd (z refl)) refl

nested-Mixed_example :
    Returns
      (λ o.
        (thread o).output
        ≡ ((prefix epoch tid strerror entry_info ++ codes "one")
            ++ line epoch tid strerror entry_info)
          ∷ codes "rest\n"
          ∷ [])
      (nested epoch tid strerror entry_info entry_info (codes "rest") quiet)
nested-Mixed_example =
    nested-Mixed epoch tid strerror entry_info entry_info (codes "rest") quiet refl refl refl
      (omega arith, is_date) (omega arith, is_date) (λ z. absurd (z refl)) refl
