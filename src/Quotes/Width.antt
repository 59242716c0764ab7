-- ===== src/Quotes/Width.antt =====
-- The server time has fixed columns: hours, minutes and the formatted second.
use mathlib.Core.Path.{ap₂}
use mathlib.Core.List.{append-nil}
use tdxrs.Base.{
  ℕ, zero, suc, ◌+◌, ◌-◌, ◌*◌, ◌/◌, ◌%◌, ◌≤◌, ◌<◌, ◌≡◌, refl, ap, ◌∙◌, true, some, [], ◌∷◌, ◌++◌,
  ltb, length, take, drop, arith, length-append, drop-append, lt→ltb, le→ltb, Bool-cases, inl, inr,
}
use tdxrs.Floats.{Floats}
use tdxrs.Text.{Text, decimal_loop, decimal}
use tdxrs.Text.Decimal.{length-padded_two}
use tdxrs.Quotes.Servertime.{
  parse_digits, clock, tail_second, fraction_second, format_fraction, format_tail,
  format_servertime,
}

peel :
    (f n : ℕ) (acc : Text)
    → 10 ≤ n
    → decimal_loop (suc f) n acc ≡ decimal_loop f (n / 10) ((48 + n % 10) ∷ acc)
unfolding decimal_loop
peel f n acc h = ground arith

short_loop :
    (f h : ℕ) (acc : Text) → h < 100 → decimal_loop (suc (suc f)) h acc ≡ decimal_loop 2 h [] ++ acc
unfolding decimal_loop
short_loop f h acc small = elim (Bool-cases (ltb h 10)) [
  | inl e ↦ rw e refl
  | inr e ↦ let tens : ltb (h / 10) 10 ≡ true = ground arith in rw (e, tens) refl
]

decimal_two : (h : ℕ) → h < 100 → decimal h ≡ decimal_loop 2 h []
unfolding decimal
decimal_two h small = short_loop 18 h [] small ∙ append-nil (decimal_loop 2 h [])

length-two :
    (h : ℕ) → h < 100 → (1 ≤ length (decimal_loop 2 h [])) × (length (decimal_loop 2 h []) ≤ 2)
unfolding decimal_loop
length-two h small = ground arith

-- The six digits of a number below a million.
abbrev six : ℕ → Text
six m =
    (48 + m / 100000 % 10)
    ∷ (48 + m / 10000 % 10)
    ∷ (48 + m / 1000 % 10)
    ∷ (48 + m / 100 % 10)
    ∷ (48 + m / 10 % 10)
    ∷ (48 + m % 10)
    ∷ []

decimal_split :
    (h m : ℕ)
    → 1 ≤ h
    → h < 100
    → m < 1000000
    → decimal (h * 1000000 + m) ≡ decimal_loop 2 h [] ++ six m
unfolding decimal
decimal_split h m low high small =
    let n = h * 1000000 + m in
    peel 19 n [] (omega arith)
    ∙ peel 18 (n / 10) _ (omega arith)
    ∙ peel 17 (n / 10 / 10) _ (omega arith)
    ∙ peel 16 (n / 10 / 10 / 10) _ (omega arith)
    ∙ peel 15 (n / 10 / 10 / 10 / 10) _ (omega arith)
    ∙ peel 14 (n / 10 / 10 / 10 / 10 / 10) _ (omega arith)
    ∙ ap₂ (λ (q : ℕ) (l : Text). decimal_loop 14 q l) (omega arith) (digits n m (omega arith))
    ∙ short_loop 12 h (six m) high
  where
    digits :
        (n m : ℕ)
        → n % 1000000 ≡ m
        → (48 + n / 10 / 10 / 10 / 10 / 10 % 10)
            ∷ (48 + n / 10 / 10 / 10 / 10 % 10)
            ∷ (48 + n / 10 / 10 / 10 % 10)
            ∷ (48 + n / 10 / 10 % 10)
            ∷ (48 + n / 10 % 10)
            ∷ (48 + n % 10)
            ∷ []
          ≡ six m
    digits n m e = ground arith

parse_two : (m : ℕ) → m < 1000000 → parse_digits 0 (take 2 (six m)) ≡ some (m / 10000)
unfolding parse_digits
parse_two m small = ground arith

parse_four : (m : ℕ) → m < 1000000 → parse_digits 0 (drop 2 (six m)) ≡ some (m % 10000)
unfolding parse_digits
parse_four m small = ground arith

parse_six : (m : ℕ) → m < 1000000 → parse_digits 0 (six m) ≡ some m
unfolding parse_digits
parse_six m small = ground arith

take-append : (xs ys : Text) (n : ℕ) → n ≡ length xs → take n (xs ++ ys) ≡ xs
take-append [] ys zero e = refl
take-append [] ys (suc n) e = absurd (omega arith)
take-append (x ∷ xs) ys zero e = absurd (omega arith)
take-append (x ∷ xs) ys (suc n) e = ap (λ (l : Text). x ∷ l) (take-append xs ys n (omega arith))

module _ (fl : Floats) where
  to_tail :
      (h m : ℕ)
      → 1 ≤ h
      → h < 100
      → m < 1000000
      → format_servertime fl (h * 1000000 + m)
        ≡ format_tail fl (decimal (h * 1000000 + m)) (decimal h) (six m)
  unfolding format_servertime
  to_tail h m low high small =
      let hh = decimal_loop 2 h [] in
      let (one, two) = length-two h high in
      let s : length (hh ++ six m) ≡ length hh + 6 = length-append hh (six m) in
      let at_front : length (hh ++ six m) - 6 ≡ length hh = omega arith in
      rw
        (
          decimal_two h high,
          decimal_split h m low high small,
          take-append hh (six m) (length (hh ++ six m) - 6) at_front,
          drop-append hh (six m) (length (hh ++ six m) - 6) at_front,
        )
        (ground arith)

  of_tail :
      (s hh rest : Text) (minute tail : ℕ)
      → parse_digits 0 (take 2 rest) ≡ some minute
      → parse_digits 0 (drop 2 rest) ≡ some tail
      → minute < 60
      → format_tail fl s hh rest ≡ clock fl hh minute (tail_second fl tail)
  unfolding format_tail
  of_tail s hh rest minute tail e1 e2 h = rw (format_tail, e1, e2, lt→ltb minute 60 h) refl

  of_fraction :
      (s hh rest : Text) (minute tail whole : ℕ)
      → parse_digits 0 (take 2 rest) ≡ some minute
      → parse_digits 0 (drop 2 rest) ≡ some tail
      → parse_digits 0 rest ≡ some whole
      → 60 ≤ minute
      → format_tail fl s hh rest ≡ clock fl hh (whole * 60 / 1000000) (fraction_second fl whole)
  unfolding format_tail format_fraction
  of_fraction s hh rest minute tail whole e1 e2 e3 h =
      rw (format_tail, format_fraction, e1, e2, le→ltb minute 60 h, e3) refl

  -- A number of seven or eight digits, `h` those in front of the last six and `m` the last six, is
  -- printed as hour, minute and second, `h` being the hour. If the first two digits of `m` are below
  -- 60, they are the minute and the other four give the second; else `m` is a fraction of the hour.
  pub format_servertime_lem :
      (h m : ℕ)
      → 1 ≤ h
      → h < 100
      → m < 1000000
      → (m / 10000 < 60
          → format_servertime fl (h * 1000000 + m)
            ≡ clock fl (decimal h) (m / 10000) (tail_second fl (m % 10000)))
        × (60 ≤ m / 10000
            → format_servertime fl (h * 1000000 + m)
              ≡ clock fl (decimal h) (m * 60 / 1000000) (fraction_second fl m))
  format_servertime_lem h m low high small =
      let s = decimal (h * 1000000 + m) in
      (
        λ minute.
            to_tail h m low high small
            ∙ of_tail s (decimal h) (six m) (m / 10000) (m % 10000) (parse_two m small)
                (parse_four m small) minute,
        λ past.
            to_tail h m low high small
            ∙ of_fraction s (decimal h) (six m) (m / 10000) (m % 10000) m (parse_two m small)
                (parse_four m small) (parse_six m small) past,
      )

  -- If the formatted seconds below 60 take six places, such a number is printed on twelve.
  pub length-format_servertime :
      (h m : ℕ)
      → 1 ≤ h
      → h < 100
      → m < 1000000
      → ((t : ℕ) → t < 10000 → length (fl.fixed_three (tail_second fl t)) ≡ 6)
      → ((w : ℕ) → w < 1000000 → length (fl.fixed_three (fraction_second fl w)) ≡ 6)
      → length (format_servertime fl (h * 1000000 + m)) ≡ 12
  length-format_servertime h m low high small tails fractions =
      let (whole, fraction) = format_servertime_lem h m low high small in
      elim (Bool-cases (ltb (m / 10000) 60)) [
        | inl e ↦ rw (whole (ground arith)) (
            simp
              (length-append, length-padded_two h high, length-padded_two (m / 10000) (omega arith))
              (omega (arith, tails (m % 10000) (omega arith))))
        | inr e ↦ rw (fraction (ground arith)) (
            simp
              (
                length-append,
                length-padded_two h high,
                length-padded_two (m * 60 / 1000000) (omega arith),
              )
              (omega (arith, fractions m small)))
      ]
