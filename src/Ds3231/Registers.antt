-- ===== src/Ds3231/Registers.antt =====
-- nrf52/src/ds3231.rs: what is written is read back.
use async_on_embedded.Prelude.{
  ℕ, ◌+◌, ◌-◌, ◌≤◌, ◌<◌, ◌≡◌, refl, ap, ◌≢◌, ◌⊎◌, inl, none, some, [], ◌∷◌, arith,
}
use Prim.Native.Nat.{bit_and, bit_or}
use async_on_embedded.Ds3231.{
  year_regs, date_regs, Chrono, ℤ, pos, negsuc, ok, invalid_date, or_invalid, date, seconds, to_bcd,
  u8, time_from_regs, date_from_regs, set_date_bytes, set_time_bytes, hour12, century,
}
use native.Mathlib.Nat.{mod-eq_of_lt}
use async_on_embedded.Ds3231.Bcd.{from_bcd-to_bcd-u8, month_bits, hour_from_reg-to_bcd, hour12_late}

-- The years that the clock can hold.
abbrev pub Storable : ℤ → Type 0
Storable (pos y) = (2000 ≤ y) × (y ≤ 2199)
Storable (negsuc y) = ⊥

module _ (C : Chrono) where
  open C use {Date, Time}

  -- The registers of a date in the first and in the second century.
  first_century :
      (d : Date) (y : ℕ)
      → C.year d ≡ pos y
      → 2000 ≤ y
      → y < 2100
      → date_from_regs C (to_bcd (u8 (C.day d))) (to_bcd (u8 (C.month d))) (to_bcd (u8 (y - 2000)))
        ≡ ok d
  unfolding date_from_regs
  first_century d y e l h =
      let m = month_bits (C.month d) (C.month_range d) in
      rw
        (
          mod-eq_of_lt {n = C.month d} {m = 256} (omega (arith, C.month_range d)),
          m.3,
          m.2,
          from_bcd-to_bcd-u8 (C.day d) (omega (arith, C.day_range d)),
          from_bcd-to_bcd-u8 (y - 2000) (omega arith),
        )
        (rw (let back : y - 2000 + 2000 ≡ y = omega arith in back)
          (rw (← e) (ap or_invalid (C.from_ymd-fields d))))

  second_century :
      (d : Date) (y : ℕ)
      → C.year d ≡ pos y
      → 2100 ≤ y
      → y ≤ 2199
      → date_from_regs C
          (to_bcd (u8 (C.day d)))
          (bit_or (to_bcd (u8 (C.month d))) century)
          (to_bcd (u8 (y - 2000 - 100)))
        ≡ ok d
  unfolding date_from_regs
  second_century d y e l h =
      let m = month_bits (C.month d) (C.month_range d) in
      rw
        (
          mod-eq_of_lt {n = C.month d} {m = 256} (omega (arith, C.month_range d)),
          m.1,
          m.0,
          from_bcd-to_bcd-u8 (C.day d) (omega (arith, C.day_range d)),
          from_bcd-to_bcd-u8 (y - 2000 - 100) (omega arith),
        )
        (rw (let back : y - 2000 - 100 + 2100 ≡ y = omega arith in back)
          (rw (← e) (ap or_invalid (C.from_ymd-fields d))))

  bytes :
      (d : Date) (y : ℕ)
      → C.year d ≡ pos y
      → set_date_bytes C d ≡ year_regs C y (to_bcd (u8 (C.day d))) (to_bcd (u8 (C.month d)))
  unfolding set_date_bytes
  bytes d y e = rw (e, date_regs)

  -- `set_date` refuses exactly the dates outside the years 2000 to 2199. For the others it writes
  -- the register address DATE and three bytes, from which `get_date` decodes the same date.
  pub date_round_trip :
      (d : Date)
      → ((set_date_bytes C d ≡ invalid_date) × ¬ Storable (C.year d))
        ⊎ (Storable (C.year d)
            × ((r0 : ℕ) × (r1 : ℕ) × (r2 : ℕ) × (set_date_bytes C d ≡ ok (date ∷ r0 ∷ r1 ∷ r2 ∷ []))
                × (date_from_regs C r0 r1 r2 ≡ ok d)))
  unfolding set_date_bytes date_from_regs
  date_round_trip d = by_year (C.year d) refl
    where
      by_year :
          (y : ℤ)
          → C.year d ≡ y
          → ((set_date_bytes C d ≡ invalid_date) × ¬ Storable (C.year d))
            ⊎ (Storable (C.year d)
                × ((r0 : ℕ) × (r1 : ℕ) × (r2 : ℕ) × (set_date_bytes C d
                      ≡ ok (date ∷ r0 ∷ r1 ∷ r2 ∷ []))
                    × (date_from_regs C r0 r1 r2 ≡ ok d)))
      by_year (negsuc y) e = inl (rw (e, date_regs), rw e (λ s. s))
      by_year (pos y) e = ground (arith, bytes d y e, first_century d y e, second_century d y e)

  -- A time of whole seconds that `set_time` writes is read back by `get_time`.
  pub time_round_trip :
      (t : Time)
      → C.nanosecond t ≡ 0
      → (r0 : ℕ) × (r1 : ℕ) × (r2 : ℕ) × (set_time_bytes C t ≡ seconds ∷ r0 ∷ r1 ∷ r2 ∷ [])
        × (time_from_regs C r0 r1 r2 ≡ some t)
  unfolding set_time_bytes time_from_regs
  time_round_trip t full = (
    to_bcd (u8 (C.second t)),
    to_bcd (u8 (C.minute t)),
    to_bcd (u8 (C.hour t)),
    refl,
    rw
        (
          time_from_regs,
          mod-eq_of_lt {n = C.hour t} {m = 256} (omega (arith, C.hour_range t)),
          hour_from_reg-to_bcd (C.hour t) (C.hour_range t),
          from_bcd-to_bcd-u8 (C.minute t) (omega (arith, C.minute_range t)),
          from_bcd-to_bcd-u8 (C.second t) (omega (arith, C.second_range t)),
        )
        (C.from_hms-fields t full),
  )

  -- When the clock is in the 12-hour format, in either half of the day, reading the time panics.
  pub time_from_regs-hour12 :
      (r0 r1 r2 : ℕ) → r2 < 256 → bit_and r2 hour12 ≢ 0 → time_from_regs C r0 r1 r2 ≡ none
  unfolding time_from_regs
  time_from_regs-hour12 r0 r1 r2 l h = C.from_hms-none _ _ _ (omega (arith, hour12_late r2 l h))
