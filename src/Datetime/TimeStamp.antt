-- ===== src/Datetime/TimeStamp.antt =====
-- src/datetime/TimeStamp.h and TimeStamp.cc. A time is a number of microseconds since the epoch, for
-- `to_string` with a sign, elsewhere one that is not negative; what gmtime_r gives for a number of seconds
-- is the parameter `gmtime`.
pub mod Text
mod Tests
use libcpp.Prelude.{ℕ, zero, suc, ◌∷◌, ◌+◌, ◌-◌, ◌*◌, ◌/◌, ◌%◌, Bool, ltb, ◌++◌, take}
use libcpp.Prelude.Bytes.{Bytes, codes}
use libcpp.Prelude.Decimal.{padded}

abbrev pub micro_seconds_per_second : ℕ
micro_seconds_per_second = 1000000

-- `struct tm`.
pub record Tm : Type 0 where
  pub tm_year : ℕ
  pub tm_mon : ℕ
  pub tm_mday : ℕ
  pub tm_hour : ℕ
  pub tm_min : ℕ
  pub tm_sec : ℕ

unfoldable pub valid : ℕ → Bool
valid t = ltb 0 t

unfoldable pub now : ℕ → ℕ → ℕ
now tv_sec tv_usec = tv_sec * micro_seconds_per_second + tv_usec

-- What `snprintf` stores of a text, without the NUL, in so many bytes.
abbrev pub snprintf : ℕ → Bytes → Bytes
snprintf size text = take (size - 1) text

-- `negsuc n` is -(n + 1).
pub data ℤ : Type 0 where
  pos : ℕ → ℤ
  negsuc : ℕ → ℤ

abbrev neg : ℕ → ℤ
neg zero = pos 0
neg (suc n) = negsuc n

-- `/` and `%` of C, which round towards 0.
abbrev quot : ℤ → ℕ → ℤ
quot (pos t) m = pos (t / m)
quot (negsuc n) m = neg (suc n / m)

abbrev rem : ℤ → ℕ → ℤ
rem (pos t) m = pos (t % m)
rem (negsuc n) m = neg (suc n % m)

-- "%0*ld": the sign counts as one of the places.
abbrev print_padded : ℕ → ℤ → Bytes
print_padded width (pos n) = padded b'0' width n
print_padded width (negsuc n) = b'-' ∷ padded b'0' (width - 1) (suc n)

unfoldable pub to_string : ℤ → Bytes
to_string t =
    let sec = quot t micro_seconds_per_second in
    let usec = rem t micro_seconds_per_second in
    snprintf 31 (print_padded 0 sec ++ (codes "." ++ print_padded 6 usec))

-- "%4d%02d%02d %02d:%02d:%02d"
abbrev pub date_text : Tm → Bytes
date_text tm =
    padded b' ' 4 (tm.tm_year + 1900)
    ++ (padded b'0' 2 (tm.tm_mon + 1)
        ++ (padded b'0' 2 tm.tm_mday
            ++ (codes " "
                ++ (padded b'0' 2 tm.tm_hour
                    ++ (codes ":"
                        ++ (padded b'0' 2 tm.tm_min ++ (codes ":" ++ padded b'0' 2 tm.tm_sec)))))))

module _ (gmtime : ℕ → Tm) where
  unfoldable pub to_formatted_string : ℕ → Bytes
  to_formatted_string t =
      let seconds = t / micro_seconds_per_second in
      let microseconds = t % micro_seconds_per_second in
      snprintf 32
        (date_text (gmtime seconds) ++ (codes "." ++ (padded b'0' 6 microseconds ++ codes "Z")))
