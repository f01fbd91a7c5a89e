-- ===== src/Datetime/TimeStamp/Text.antt =====
-- The texts of a time.
use libcpp.Prelude.{
  zero, ◌-◌, Option, some, assert, ◌>>◌, replicate, ℕ, suc, ◌+◌, ◌*◌, ◌/◌, ◌%◌, ◌^◌, ◌≤◌, ◌<◌, ◌≡◌,
  refl, ap, true, false, [], ◌∷◌, ◌++◌, if◌then◌else◌, ◌==◌, arith, length, take_of_le,
  length-append,
}
use libcpp.Prelude.Bytes.{Bytes, codes}
use libcpp.Prelude.Decimal.{
  decimal, padded, length-padded, length-decimal, read_digits, read_digits-padded,
  read_digits-decimal, all_digits, all_digits-decimal,
}
use libcpp.Datetime.TimeStamp.{
  pos, micro_seconds_per_second, Tm, to_string, date_text, to_formatted_string,
}

-- The part before the first dot, and the part behind it.
abbrev pub before_dot : Bytes → Bytes
before_dot [] = []
before_dot (c ∷ s) = if c == b'.' then [] else c ∷ before_dot s

abbrev pub after_dot : Bytes → Bytes
after_dot [] = []
after_dot (c ∷ s) = if c == b'.' then s else after_dot s

-- Microseconds, from digits, a dot and exactly six digits.
unfoldable pub parse : Bytes → Option ℕ
parse s = do
  assert (all_digits (before_dot s))
  assert (all_digits (after_dot s))
  assert (length (after_dot s) == 6)
  some (read_digits 0 (before_dot s) * 1000000 + read_digits 0 (after_dot s))

all_digits-replicate :
    (k : ℕ) (s : Bytes) → all_digits s ≡ true → all_digits (replicate k b'0' ++ s) ≡ true
unfolding all_digits
all_digits-replicate zero s h = h
all_digits-replicate (suc k) s h = all_digits-replicate k s h

all_digits-padded : (w n : ℕ) → all_digits (padded b'0' w n) ≡ true
unfolding padded
all_digits-padded w n =
    all_digits-replicate (w - length (decimal n)) (decimal n) (all_digits-decimal n)

split_digits :
    (s r : Bytes)
    → all_digits s ≡ true
    → (before_dot (s ++ (b'.' ∷ r)) ≡ s) × (after_dot (s ++ (b'.' ∷ r)) ≡ r)
unfolding all_digits
split_digits [] r h = (refl, refl)
split_digits (c ∷ s) r h =
    let no_dot : (c == b'.') ≡ false = ground arith in
    let (k, l) = split_digits s r (ground arith) in rw no_dot (ap (◌∷◌ c) k, l)

length-text :
    (sec usec : ℕ)
    → sec < 10 ^ 13
    → usec < 10 ^ 6
    → length (decimal sec ++ (codes "." ++ padded b'0' 6 usec)) ≤ 30
length-text sec usec h k = omega (
  arith,
  length-append (decimal sec) (codes "." ++ padded b'0' 6 usec),
  length-decimal 12 sec h,
  length-padded b'0' 5 usec k,
)

padded-zero : (n : ℕ) → padded b'0' 0 n ≡ decimal n
unfolding padded
padded-zero n =
    let none_left : 0 - length (decimal n) ≡ 0 = omega arith in
    ap (λ k. replicate k b'0' ++ decimal n) none_left

-- The text of a time that is not negative and that an int64_t holds: digits, a dot and exactly six digits,
-- which give the time back.
pub parse-to_string : (t : ℕ) → t < 2 ^ 63 → parse (to_string (pos t)) ≡ some t
unfolding parse to_string
parse-to_string t h =
    let sec = t / micro_seconds_per_second in
    let usec = t % micro_seconds_per_second in
    let (k, l) = split_digits (decimal sec) (padded b'0' 6 usec) (all_digits-decimal sec) in
    rw
      (
        padded-zero sec,
        take_of_le 30 (decimal sec ++ (codes "." ++ padded b'0' 6 usec))
            (length-text sec usec (omega arith) (omega arith)),
        k,
        l,
        all_digits-decimal sec,
        all_digits-padded 6 usec,
        length-padded b'0' 5 usec (omega arith),
        read_digits-decimal sec,
        read_digits-padded 6 usec,
      )
      (ap some (omega arith))

-- What gmtime_r gives, up to the year 9999.
pub record IsDate (tm : Tm) : Type 0 where
  pub year : tm.tm_year + 1900 < 10000
  pub month : tm.tm_mon + 1 < 100
  pub day : tm.tm_mday < 100
  pub hour : tm.tm_hour < 100
  pub minute : tm.tm_min < 100
  pub second : tm.tm_sec < 100

pub length-then :
    (xs ys : Bytes) {m n : ℕ} → length xs ≡ m → length ys ≡ n → length (xs ++ ys) ≡ m + n
length-then xs ys h k = omega (arith, length-append xs ys)

pub length-date_text : {tm : Tm} → IsDate tm → length (date_text tm) ≡ 17
length-date_text {tm} d =
    length-then (padded b' ' 4 (tm.tm_year + 1900)) _ (length-padded b' ' 3 _ d.year) (
      length-then (padded b'0' 2 (tm.tm_mon + 1)) _ (length-padded b'0' 1 _ d.month) (
        length-then (padded b'0' 2 tm.tm_mday) _ (length-padded b'0' 1 _ d.day) (
          ap suc (
            length-then (padded b'0' 2 tm.tm_hour) _ (length-padded b'0' 1 _ d.hour) (
              ap suc (
                length-then (padded b'0' 2 tm.tm_min) _ (length-padded b'0' 1 _ d.minute)
                  (ap suc (length-padded b'0' 1 _ d.second))))))))

pub length-fraction :
    (t : ℕ) (z : Bytes)
    → length (codes "." ++ (padded b'0' 6 (t % micro_seconds_per_second) ++ z)) ≡ 7 + length z
length-fraction t z = omega (
  arith,
  length-append (padded b'0' 6 (t % micro_seconds_per_second)) z,
  length-padded b'0' 5 (t % micro_seconds_per_second) (omega arith),
)

module _ (gmtime : ℕ → Tm) where
  pub to_formatted_string_lem :
      (t : ℕ)
      → IsDate (gmtime (t / micro_seconds_per_second))
      → to_formatted_string gmtime t
        ≡ date_text (gmtime (t / micro_seconds_per_second))
          ++ (codes "." ++ (padded b'0' 6 (t % micro_seconds_per_second) ++ codes "Z"))
  unfolding to_formatted_string
  to_formatted_string_lem t d =
      take_of_le 31
        (date_text (gmtime (t / micro_seconds_per_second))
          ++ (codes "." ++ (padded b'0' 6 (t % micro_seconds_per_second) ++ codes "Z")))
        (omega (
          arith,
          length-then (date_text (gmtime (t / micro_seconds_per_second)))
              (codes "." ++ (padded b'0' 6 (t % micro_seconds_per_second) ++ codes "Z"))
              (length-date_text d) (length-fraction t (codes "Z")),
        ))
