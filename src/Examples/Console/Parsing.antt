-- ===== src/Examples/Console/Parsing.antt =====
-- nrf52/examples/9-clock.rs: what `Command::from_str` accepts.
use async_on_embedded.Prelude.{
  ◌%◌, ◌≡◌, ◌≢◌, refl, sym, ap, ◌∙◌, inl, inr, true, Option, some, [], ◌∷◌, ◌++◌, arith,
  Option-cases,
}
use async_on_embedded.Ds3231.{ℤ, pos, negsuc, Chrono, set_date_bytes, invalid_date}
use async_on_embedded.Ds3231.Registers.{Storable, date_round_trip}
use async_on_embedded.Examples.Console.{
  Text, strip, is_whitespace, trim_start, trim_end, trim, cmd_date, cmd_help, cmd_sensors,
  cmd_set_date, cmd_set_time, year_fits, Command, date, help, sensors, set_date, set_time,
  date_command, time_command, setting, trimmed, from_str,
}

abbrev pub IsBlank : Text → Type 0
IsBlank [] = Unit
IsBlank (c ∷ cs) = (is_whitespace c ≡ true) × IsBlank cs

trim_start-blank : (before s : Text) → IsBlank before → trim_start (before ++ s) ≡ trim_start s
unfolding trim_start
trim_start-blank [] s b = refl
trim_start-blank (c ∷ before) s b = rw (b.0) (trim_start-blank before s b.1)

trim_end_blank : (after : Text) → IsBlank after → trim_end after ≡ []
unfolding trim_end
trim_end_blank [] b = refl
trim_end_blank (c ∷ after) b = ground (arith, trim_end_blank after b.1)

trim_end-blank : (s after : Text) → IsBlank after → trim_end (s ++ after) ≡ trim_end s
unfolding trim_end
trim_end-blank [] after b = trim_end_blank after b
trim_end-blank (c ∷ s) after b = rw (trim_end-blank s after b)

-- A text that does not end in white space keeps its end, whatever stands before it.
pub trim_end-append : (p s : Text) → s ≢ [] → trim_end s ≡ s → trim_end (p ++ s) ≡ p ++ s
unfolding trim_end
trim_end-append [] s ne e = e
trim_end-append (c ∷ p) [] ne e = absurd (ne refl)
trim_end-append (c ∷ []) (d ∷ s) ne e = rw e
trim_end-append (c ∷ b ∷ p) (d ∷ s) ne e = rw (trim_end-append (b ∷ p) (d ∷ s) ne e)

year_fits-Storable : (y : ℤ) → year_fits y ≡ true → Storable y
unfolding year_fits
year_fits-Storable (pos y) e = ground arith
year_fits-Storable (negsuc y) e = cc

Storable-year_fits : (y : ℤ) → Storable y → year_fits y ≡ true
unfolding year_fits
Storable-year_fits (pos y) e = ground arith
Storable-year_fits (negsuc y) e = absurd e

module _ (C : Chrono) where
  open C use {Date, Time}

  -- whole seconds, the leap second, which is typed as 60, among them
  abbrev pub IsWhole : Time → Type 0
  IsWhole t = C.nanosecond t % 1000000000 ≡ 0

  -- The formatters of `chrono` for the two formats, with what their documentation says: they are
  -- read back, and give texts that do not end in white space.
  pub record Formats (parse_date : Text → Option Date) (parse_time : Text → Option Time)
      : Type 0 where
    pub format_date : Date → Text
    pub format_time : Time → Text
    pub parse-format_date : (d : Date) → Storable (C.year d) → parse_date (format_date d) ≡ some d
    pub parse-format_time : (t : Time) → IsWhole t → parse_time (format_time t) ≡ some t
    pub date_full : (d : Date) → format_date d ≢ []
    pub time_full : (t : Time) → format_time t ≢ []
    pub date_tight : (d : Date) → trim_end (format_date d) ≡ format_date d
    pub time_tight : (t : Time) → trim_end (format_time t) ≡ format_time t

  abbrev pub CanSet : Command C → Type 0
  CanSet date = Unit
  CanSet help = Unit
  CanSet sensors = Unit
  CanSet (set_date d) = Storable (C.year d)
  CanSet (set_time t) = IsWhole t

  module _ (parse_date : Text → Option Date) (parse_time : Text → Option Time) where
    module _ (F : Formats parse_date parse_time) where
      -- how a command is typed
      abbrev pub typed : Command C → Text
      typed date = cmd_date
      typed help = cmd_help
      typed sensors = cmd_sensors
      typed (set_date d) = cmd_set_date ++ F.format_date d
      typed (set_time t) = cmd_set_time ++ F.format_time t

      trim_start-typed :
          (c : Command C) (after : Text) → trim_start (typed c ++ after) ≡ typed c ++ after
      unfolding trim_start is_whitespace
      trim_start-typed date after = refl
      trim_start-typed help after = refl
      trim_start-typed sensors after = refl
      trim_start-typed (set_date d) after = refl
      trim_start-typed (set_time t) after = refl

      trim_end-typed : (c : Command C) → trim_end (typed c) ≡ typed c
      unfolding trim_end is_whitespace
      trim_end-typed date = refl
      trim_end-typed help = refl
      trim_end-typed sensors = refl
      trim_end-typed (set_date d) = trim_end-append cmd_set_date _ (F.date_full d) (F.date_tight d)
      trim_end-typed (set_time t) = trim_end-append cmd_set_time _ (F.time_full t) (F.time_tight t)

      trim-typed :
          (c : Command C) (before after : Text)
          → IsBlank before
          → IsBlank after
          → trim (before ++ (typed c ++ after)) ≡ typed c
      unfolding trim
      trim-typed c before after b a =
          ap trim_end (trim_start-blank before _ b ∙ trim_start-typed c after)
          ∙ trim_end-blank (typed c) after a
          ∙ trim_end-typed c

      trimmed-typed :
          (c : Command C) → CanSet c → trimmed C parse_date parse_time (typed c) ≡ some c
      unfolding trimmed setting date_command time_command
      trimmed-typed date f = refl
      trimmed-typed help f = refl
      trimmed-typed sensors f = refl
      trimmed-typed (set_date d) f = rw (F.parse-format_date d f, Storable-year_fits (C.year d) f)
      trimmed-typed (set_time t) f = rw (F.parse-format_time t f)

      -- Every command, a date being one of the years 2000 to 2199 and a time one of whole seconds, is read back as it is typed,
      -- with any white space before and after it.
      pub from_str-typed :
          (c : Command C) (before after : Text)
          → CanSet c
          → IsBlank before
          → IsBlank after
          → from_str C parse_date parse_time (before ++ (typed c ++ after)) ≡ some c
      unfolding from_str
      from_str-typed c before after f b a =
          ap (trimmed C parse_date parse_time) (trim-typed c before after b a) ∙ trimmed-typed c f

    date_command_fits :
        (s : Text) (d : Date)
        → date_command C parse_date parse_time s ≡ some (set_date d)
        → year_fits (C.year d) ≡ true
    unfolding date_command
    date_command_fits s d e = elim (Option-cases (parse_date s)) [
      | inl c ↦ ground arith
      | inr (x, c) ↦ ground arith
    ]

    time_command_other :
        (s : Text) (d : Date) → time_command C parse_date parse_time s ≢ some (set_date d)
    unfolding time_command
    time_command_other s d e = elim (Option-cases (parse_time s)) [
      | inl c ↦ ground arith
      | inr (x, c) ↦ ground arith
    ]

    setting_fits :
        (s : Text) (d : Date)
        → setting C parse_date parse_time s ≡ some (set_date d)
        → year_fits (C.year d) ≡ true
    unfolding setting
    setting_fits s d e = elim (Option-cases (strip cmd_set_date s)) [
      | inl c ↦ elim (Option-cases (strip cmd_set_time s)) [
        | inl c' ↦ ground arith
        | inr (rest, c') ↦ absurd (time_command_other rest d (sym (rw (c, c')) ∙ e))
      ]
      | inr (rest, c) ↦ date_command_fits rest d (sym (rw c) ∙ e)
    ]

    trimmed_fits :
        (s : Text) (d : Date)
        → trimmed C parse_date parse_time s ≡ some (set_date d)
        → year_fits (C.year d) ≡ true
    unfolding trimmed
    trimmed_fits s d e = ground (arith, setting_fits s d)

    -- A date that the console takes from any input is one that the driver of the clock does not
    -- refuse.
    pub from_str-accepted :
        (s : Text) (d : Date)
        → from_str C parse_date parse_time s ≡ some (set_date d)
        → set_date_bytes C d ≢ invalid_date
    unfolding from_str
    from_str-accepted s d e refused = elim (date_round_trip C d) [
      | inl (r, out) ↦ out (year_fits-Storable (C.year d) (trimmed_fits (trim s) d e))
      | inr (fits, (r0, r1, r2, bytes, back)) ↦ ground arith
    ]

    pub sensors_parsed : from_str C parse_date parse_time cmd_sensors ≡ some sensors
    unfolding from_str trim trim_start trim_end is_whitespace trimmed
    sensors_parsed = refl
