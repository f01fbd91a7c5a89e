-- ===== src/Logging/Logger/Line.antt =====
-- The time at the start of a line of the log.
use libcpp.Prelude.{
  ℕ, ◌/◌, ◌%◌, ◌≤◌, ◌≡◌, ◌≢◌, refl, sym, ap, ap₂, ◌∙◌, inl, inr, false, ◌++◌, ◌==◌, Bool-cases,
  ==_iff, arith, length, take, take_of_le, Returns, Returns-bind, ltb, append_assoc,
  take-append_of_le, length-append,
}
use libcpp.Prelude.Bytes.{Bytes, codes}
use libcpp.Prelude.Decimal.{padded}
use libcpp.Datetime.TimeStamp.{
  micro_seconds_per_second, Tm, date_text, to_formatted_string, snprintf,
}
use libcpp.Datetime.TimeStamp.Text.{
  IsDate, length-date_text, length-fraction, to_formatted_string_lem,
}
use libcpp.Logging.Logger.{Thread, write_at_17, renew_time, record_format_time}

module _ (gmtime : ℕ → Tm) where
  -- The text that is cached is that of the second that is.
  abbrev pub Cached : Thread → Type 0
  Cached t = t.seconds ≢ 0 → (take 17 t.time ≡ date_text (gmtime t.seconds)) × (17 ≤ length t.time)

  -- A time behind the first second of the epoch, with a year of four digits.
  abbrev pub Sane : ℕ → Type 0
  Sane now = (1000000 ≤ now) × IsDate (gmtime (now / micro_seconds_per_second))

  abbrev tail : ℕ → Bytes
  tail now = codes "." ++ (padded b'0' 6 (now % micro_seconds_per_second) ++ codes "Z ")

  date_tail :
      (now : ℕ)
      → IsDate (gmtime (now / micro_seconds_per_second))
      → date_text (gmtime (now / micro_seconds_per_second)) ++ tail now
        ≡ to_formatted_string gmtime now ++ codes " "
  date_tail now d = rw (to_formatted_string_lem gmtime now d) (
      sym (
        append_assoc (date_text (gmtime (now / micro_seconds_per_second)))
          (codes "." ++ (padded b'0' 6 (now % micro_seconds_per_second) ++ codes "Z")) (codes " ")
        ∙ rw (append_assoc (padded b'0' 6 (now % micro_seconds_per_second)) (codes "Z") (codes " "))
            refl))

  -- The array before the fraction is written: its first 17 bytes are those of the second.
  abbrev Renewed : ℕ → Thread → Thread → Type 0
  Renewed seconds t t' =
      (take 17 t'.time ≡ date_text (gmtime seconds))
      × (17 ≤ length t'.time)
      × (record t { seconds = seconds; time = t'.time } ≡ t')

  renew_time-Renewed :
      (seconds : ℕ) (t : Thread)
      → seconds ≢ 0
      → IsDate (gmtime seconds)
      → Cached t
      → Returns (Renewed seconds t) (renew_time gmtime seconds t)
  renew_time-Renewed seconds t n d c = elim (Bool-cases (t.seconds == seconds)) [
    | inl e ↦ rw e (
        let q : t.seconds ≡ seconds = (==_iff _ _).0 e in
        let (k, l) = c (λ z. n (sym q ∙ z)) in
        (k ∙ ap (λ x. date_text (gmtime x)) q, l, rw (sym q) refl))
    | inr e ↦
        let size : length (date_text (gmtime seconds)) ≡ 17 = length-date_text d in
        rw (e, size, take_of_le 31 (date_text (gmtime seconds)) (omega (arith, size)))
          (
            take_of_le 17 (date_text (gmtime seconds)) (omega (arith, size)),
            omega (arith, size),
            refl,
          )
  ]

  write_at_17-date :
      (seconds : ℕ) (time text : Bytes)
      → take 17 time ≡ date_text (gmtime seconds)
      → 17 ≤ length time
      → write_at_17 time text ≡ date_text (gmtime seconds) ++ text
  write_at_17-date seconds time text h k =
      let long : ltb (length time) 17 ≡ false = ground arith in rw long (ap (λ xs. xs ++ text) h)

  -- What `recordFormatTime` makes of the state.
  abbrev pub Timed : ℕ → Thread → Thread → Type 0
  Timed now t t' =
      (t'.stream ≡ t.stream ++ (to_formatted_string gmtime now ++ codes " "))
      × Cached t'
      × (t'.log_level ≡ t.log_level)
      × (t'.output ≡ t.output)
      × (t'.flushes ≡ t.flushes)

  pub record_format_time-Timed :
      (now : ℕ) (t : Thread)
      → Sane now
      → Cached t
      → Returns (Timed now t) (record_format_time gmtime now t)
  unfolding record_format_time
  record_format_time-Timed now t (late, d) c =
      Returns-bind (Renewed seconds t) (Timed now t) (renew_time gmtime seconds t) _
        (renew_time-Renewed seconds t (omega arith) d c)
        λ t' (h, k, e).
          let text = write_at_17-date seconds t'.time (snprintf 15 (tail now)) h k in
          (
            ap₂ ◌++◌ (sym (ap (λ x. x.stream) e)) (text ∙ whole),
            λ z. (
              ap (take 17) text
                  ∙ take-append_of_le 17 (date_text (gmtime seconds)) (snprintf 15 (tail now))
                      (omega (arith, size))
                  ∙ take_of_le 17 (date_text (gmtime seconds)) (omega (arith, size))
                  ∙ ap (λ x. date_text (gmtime x.seconds)) e,
              omega (
                arith,
                size,
                ap length text,
                length-append (date_text (gmtime seconds)) (snprintf 15 (tail now)),
              ),
            ),
            sym (ap (λ x. x.log_level) e),
            sym (ap (λ x. x.output) e),
            sym (ap (λ x. x.flushes) e),
          )
    where
      seconds : ℕ
      seconds = now / micro_seconds_per_second

      size : length (date_text (gmtime seconds)) ≡ 17
      size = length-date_text d

      whole :
          date_text (gmtime seconds) ++ snprintf 15 (tail now)
          ≡ to_formatted_string gmtime now ++ codes " "
      whole =
          ap (◌++◌ (date_text (gmtime seconds)))
            (take_of_le 14 (tail now) (omega (arith, length-fraction now (codes "Z "))))
          ∙ date_tail now d
