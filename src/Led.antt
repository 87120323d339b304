-- ===== src/Led.antt =====
-- nrf52/src/led.rs: the three LEDs of the board, over the port P0. A write of 1 to a bit of OUTSET
-- or OUTCLR makes that pin high or low and leaves the others; a pin that is low lights its LED.
pub mod Last
use async_on_embedded.Prelude.{
  ℕ, ◌≡◌, Bool, true, false, ◌&&◌, ◌||◌, not, List, [], ◌∷◌, ◌==◌, if◌then◌else◌,
}

pub record Port : Type 0 where
  pub high : ℕ → Bool
  pub is_output : ℕ → Bool

pub data Led : Type 0 where
  red green blue : Led

abbrev pub pin : Led → ℕ
pin red = 13
pin green = 14
pin blue = 15

abbrev outset : ℕ → Port → Port
outset n p = record p { high = λ k. if n == k then true else p.high k }

abbrev outclr : ℕ → Port → Port
outclr n p = record p { high = λ k. if n == k then false else p.high k }

abbrev dirset : ℕ → Port → Port
dirset n p = record p { is_output = λ k. if n == k then true else p.is_output k }

unfoldable pub init : Port → Port
init p = let off = outset 15 (outset 14 (outset 13 p)) in dirset 15 (dirset 14 (dirset 13 off))

unfoldable pub off : Led → Port → Port
off l p = outset (pin l) p

unfoldable pub on : Led → Port → Port
on l p = outclr (pin l) p
