-- ===== src/Ds3231/Bcd.antt =====
-- nrf52/src/ds3231.rs: binary-coded decimals and the bits of the month and hour registers.
use async_on_embedded.Prelude.{
  false, if◌then◌else◌, ℕ, zero, suc, ◌≤◌, ◌<◌, ◌≡◌, refl, ◌≢◌, Bool, true, ◌&&◌, ◌||◌, not, arith,
  leb, ◌==◌, ==_iff,
}
use Prim.Native.Nat.{bit_and, bit_or}
use native.Mathlib.Nat.{mod-eq_of_lt}
use async_on_embedded.Ds3231.{u8, from_bcd, to_bcd, hour_from_reg, hour12, century, complement}

-- A test that holds of all numbers under a bound, the smallest last.
holds_under : (ℕ → Bool) → ℕ → Bool
holds_under test zero = true
holds_under test (suc bound) = if test bound then holds_under test bound else false

holds_under_at :
    (test : ℕ → Bool) (k bound : ℕ) → k < bound → holds_under test bound ≡ true → test k ≡ true
unfolding holds_under
holds_under_at test k zero lt all = absurd (omega arith)
holds_under_at test k (suc bound) lt all = ground (arith, holds_under_at test k bound)

round_trip_table : holds_under (λ x. from_bcd (to_bcd x) == x) 100 ≡ true
unfolding holds_under from_bcd to_bcd
round_trip_table = refl

-- Every number of two decimal digits survives `to_bcd` and `from_bcd`.
pub from_bcd-to_bcd : (x : ℕ) → x < 100 → from_bcd (to_bcd x) ≡ x
from_bcd-to_bcd x l = (==_iff _ x).0 (holds_under_at _ x 100 l round_trip_table)

-- Beside a month, the century bit is kept apart.
month_table :
    holds_under
      (λ x.
        (from_bcd (bit_and (bit_or (to_bcd x) century) (complement century)) == x)
        && (not (bit_and (bit_or (to_bcd x) century) century == 0)
            && ((from_bcd (bit_and (to_bcd x) (complement century)) == x)
                && (bit_and (to_bcd x) century == 0))))
      13
    ≡ true
unfolding holds_under from_bcd to_bcd
month_table = refl

pub month_bits :
    (x : ℕ)
    → x ≤ 12
    → (from_bcd (bit_and (bit_or (to_bcd x) century) (complement century)) ≡ x)
      × ((bit_and (bit_or (to_bcd x) century) century == 0) ≡ false)
      × (from_bcd (bit_and (to_bcd x) (complement century)) ≡ x)
      × (bit_and (to_bcd x) century ≡ 0)
month_bits x l = ground (arith, holds_under_at _ x 13 (omega arith) month_table)

-- The hours of the 24-hour format have neither of the two upper bits.
hour_table : holds_under (λ x. hour_from_reg (to_bcd x) == x) 24 ≡ true
unfolding holds_under from_bcd to_bcd hour_from_reg
hour_table = refl

pub hour_from_reg-to_bcd : (x : ℕ) → x < 24 → hour_from_reg (to_bcd x) ≡ x
hour_from_reg-to_bcd x l = (==_iff _ x).0 (holds_under_at _ x 24 l hour_table)

hour12_table : holds_under (λ r. (bit_and r hour12 == 0) || leb 40 (hour_from_reg r)) 256 ≡ true
unfolding holds_under from_bcd hour_from_reg
hour12_table = refl

-- Any register value with the bit of the 12-hour format reads as an hour of at least 40.
pub hour12_late : (r : ℕ) → r < 256 → bit_and r hour12 ≢ 0 → 40 ≤ hour_from_reg r
hour12_late r l h = ground (arith, holds_under_at _ r 256 l hour12_table)

pub from_bcd-to_bcd-u8 : (x : ℕ) → x < 100 → from_bcd (to_bcd (u8 x)) ≡ x
from_bcd-to_bcd-u8 x l = rw (mod-eq_of_lt {n = x} {m = 256} (omega arith)) (from_bcd-to_bcd x l)
