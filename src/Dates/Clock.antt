-- ===== src/Dates/Clock.antt =====
-- The clock of the minute data: 120 points from 09:31 to 11:30 and 120 from 13:01 to 15:00.
use tdxrs.Base.{ℕ, ◌+◌, ◌-◌, ◌*◌, ◌≤◌, ◌<◌, ◌≡◌, refl, arith, ◌⊎◌, inl, inr, length, length-append}
use tdxrs.Text.Decimal.{length-padded_two, length-padded_four}
use tdxrs.Dates.{minute_total, format_time, format_date, format_datetime}

abbrev pub InSession : ℕ → Type 0
InSession t = ((9 * 60 + 31 ≤ t) × (t ≤ 11 * 60 + 30)) ⊎ ((13 * 60 + 1 ≤ t) × (t ≤ 15 * 60))

-- The first 240 points lie in the two sessions, later points are later, and each minute of the
-- sessions is the time of one of the points.
pub minute_total_sessions :
    (i j t : ℕ)
    → (i < 240 → InSession (minute_total i))
      × (i < j → minute_total i < minute_total j)
      × (InSession t → (k : ℕ) × (k < 240) × (minute_total k ≡ t))
unfolding minute_total
minute_total_sessions i j t = (λ h. ground arith, λ h. ground arith, point)
  where
    point : InSession t → (k : ℕ) × (k < 240) × (minute_total k ≡ t)
    point (inl h) = (t - 571, omega arith, ground arith)
    point (inr h) = (t - 661, omega arith, ground arith)

-- A time of day is printed on five places, a date before year 10000 on ten, both on sixteen: the
-- texts have fixed columns.
pub length-format_datetime :
    (y m d h n : ℕ)
    → y < 10000
    → m < 100
    → d < 100
    → h < 100
    → n < 100
    → (length (format_date y m d) ≡ 10)
      × (length (format_time h n) ≡ 5)
      × (length (format_datetime y m d h n) ≡ 16)
unfolding format_time format_date format_datetime
length-format_datetime y m d h n hy hm hd hh hn =
    simp
      (
        length-append,
        length-padded_four y hy,
        length-padded_two m hm,
        length-padded_two d hd,
        length-padded_two h hh,
        length-padded_two n hn,
      )
      (refl, refl, refl)
