-- ===== src/Examples/Console/Sample.antt =====
-- nrf52/examples/9-clock.rs: formats of the two shapes that the program asks chrono for, over the
-- calendar of Ds3231/Calendar.
use async_on_embedded.Prelude.{
  take, ℕ, ◌+◌, ◌-◌, ◌*◌, ◌/◌, ◌%◌, ◌≡◌, Option, none, ◌++◌, take, [], ◌∷◌, arith,
}
use async_on_embedded.Ds3231.{pos}
use async_on_embedded.Ds3231.Calendar.{Clock, clock, clock-fields, calendar}
use async_on_embedded.Examples.Console.{Text, is_whitespace, trim_end}
use async_on_embedded.Examples.Console.Parsing.{Formats, trim_end-append}

-- the value of a digit, of two digits, and of four
abbrev digit : ℕ → ℕ
digit c = c - 48

abbrev two : ℕ → ℕ → ℕ
two a b = digit a * 10 + digit b

abbrev four : ℕ → ℕ → ℕ → ℕ → ℕ
four a b c d = two a b * 100 + two c d

abbrev tens : ℕ → ℕ
tens n = 48 + n / 10

abbrev ones : ℕ → ℕ
ones n = 48 + n % 10

abbrev date_text : ℕ → ℕ → ℕ → Text
date_text y month day =
    tens (y / 100)
    ∷ ones (y / 100)
    ∷ tens (y % 100)
    ∷ ones (y % 100)
    ∷ b'-'
    ∷ tens month
    ∷ ones month
    ∷ b'-'
    ∷ tens day
    ∷ ones day
    ∷ []

abbrev format_date : ℕ → Text
format_date d = date_text (d / 416) (d % 13) (d / 13 % 32)

abbrev pub parse_date : Text → Option ℕ
parse_date (y0 ∷ y1 ∷ y2 ∷ y3 ∷ s0 ∷ m0 ∷ m1 ∷ s1 ∷ d0 ∷ d1 ∷ []) =
    calendar.from_ymd_opt (pos (four y0 y1 y2 y3)) (two m0 m1) (two d0 d1)
parse_date other = none

abbrev time_text : ℕ → ℕ → ℕ → Text
time_text h m s = tens h ∷ ones h ∷ b':' ∷ tens m ∷ ones m ∷ b':' ∷ tens s ∷ ones s ∷ []

abbrev format_time : Clock → Text
format_time t = time_text (t.0 / 3600) (t.0 / 60 % 60) (t.0 % 60)

abbrev pub parse_time : Text → Option Clock
parse_time (h0 ∷ h1 ∷ c0 ∷ m0 ∷ m1 ∷ c1 ∷ s0 ∷ s1 ∷ []) = clock (two h0 h1) (two m0 m1) (two s0 s1)
parse_time other = none

pub two-digits : (n : ℕ) → two (tens n) (ones n) ≡ n
two-digits n = omega arith

pub four-digits :
    (n : ℕ) → four (tens (n / 100)) (ones (n / 100)) (tens (n % 100)) (ones (n % 100)) ≡ n
four-digits n = omega (arith, two-digits (n / 100), two-digits (n % 100))

pub trim_end-ones : (s : Text) (n : ℕ) → trim_end (s ++ (ones n ∷ [])) ≡ s ++ (ones n ∷ [])
unfolding trim_end is_whitespace
trim_end-ones s n = trim_end-append s (ones n ∷ []) (λ e. cc) (ground arith)

unfoldable pub sample_formats : Formats calendar parse_date parse_time
unfolding trim_end
sample_formats = record {
  format_date = format_date;
  format_time = format_time;
  parse-format_date = λ d s.
      rw (four-digits (d / 416), two-digits (d % 13), two-digits (d / 13 % 32))
        (calendar.from_ymd-fields d);
  parse-format_time = λ t e.
      rw (two-digits (t.0 / 3600), two-digits (t.0 / 60 % 60), two-digits (t.0 % 60))
        (clock-fields t);
  date_full = λ d e. cc;
  time_full = λ t e. cc;
  date_tight = λ d. trim_end-ones (take 9 (format_date d)) (d / 13 % 32);
  time_tight = λ t. trim_end-ones (take 7 (format_time t)) (t.0 % 60);
}
