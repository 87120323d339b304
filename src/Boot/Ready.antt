-- ===== src/Boot/Ready.antt =====
-- nrf52/src/lib.rs: what `pre_init` leaves for the drivers.
use async_on_embedded.Prelude.{
  refl, ℕ, zero, suc, ◌+◌, ◌<◌, ◌≡◌, Bool, true, false, ◌&&◌, not, List, [], ◌∷◌, arith, ◌==◌,
}
use async_on_embedded.Led
use async_on_embedded.Led.{Led, red, green, blue, pin}
use async_on_embedded.Led.Last.{is_lit}
use async_on_embedded.Boot.{
  Board, pulled_up, init_serial, configure, init_twim, init_timer, init_all, start_clock, busy_wait,
  booted, pre_init,
}

abbrev differs : ℕ → List ℕ → Bool
differs p [] = true
differs p (q ∷ ps) = not (p == q) && differs p ps

abbrev pub all_differ : List ℕ → Bool
all_differ [] = true
all_differ (p ∷ ps) = differs p ps && all_differ ps

-- the pins that the board uses
abbrev pub pins : Board → List ℕ
pins b =
    b.uarte.rxd.pin
    ∷ b.uarte.txd.pin
    ∷ b.twim.scl.pin
    ∷ b.twim.sda.pin
    ∷ pin red
    ∷ pin green
    ∷ pin blue
    ∷ []

-- What the drivers rely on.
pub record IsReady (b : Board) : Type 0 where
  pub clock_xtal : b.clock.xtal ≡ true
  pub dark : (l : Led) → is_lit l b.port ≡ false
  pub leds_output : (l : Led) → b.port.is_output (pin l) ≡ true
  pub pins_apart : all_differ (pins b) ≡ true
  pub uarte_on : (b.uarte.enabled && b.uarte.rxd.connected && b.uarte.txd.connected) ≡ true
  pub uarte_interrupts : (b.uarte.int_endrx && b.uarte.int_endtx) ≡ true
  pub twim_on : (b.twim.enabled && b.twim.scl.connected && b.twim.sda.connected) ≡ true
  pub twim_interrupts : (b.twim.int_error && b.twim.int_stopped) ≡ true
  pub scl_input : (b.pin_cnf b.twim.scl.pin ≡ pulled_up) × (b.port.is_output b.twim.scl.pin ≡ false)
  pub sda_input : (b.pin_cnf b.twim.sda.pin ≡ pulled_up) × (b.port.is_output b.twim.sda.pin ≡ false)
  pub rtc_runs : (b.rtc.running && b.rtc.int_compare0) ≡ true
  pub rtc_zero : b.rtc.counter ≡ 0

abbrev started_up : Board → Board
started_up b = init_all (start_clock b)

dark_at : (b : Board) (l : Led) → is_lit l (started_up b).port ≡ false
unfolding init_all start_clock init_serial init_twim init_timer configure Led.init
dark_at b red = refl
dark_at b green = refl
dark_at b blue = refl

output_at : (b : Board) (l : Led) → (started_up b).port.is_output (pin l) ≡ true
unfolding init_all start_clock init_serial init_twim init_timer configure Led.init
output_at b red = refl
output_at b green = refl
output_at b blue = refl

started_up-IsReady : (b : Board) → IsReady (started_up b)
unfolding init_all start_clock init_serial init_twim init_timer configure Led.init
started_up-IsReady b = record {
  clock_xtal = refl;
  dark = dark_at b;
  leds_output = output_at b;
  pins_apart = refl;
  uarte_on = refl;
  uarte_interrupts = refl;
  twim_on = refl;
  twim_interrupts = refl;
  scl_input = (refl, refl);
  sda_input = (refl, refl);
  rtc_runs = refl;
  rtc_zero = refl;
}

busy_wait_found :
    (fuel k n m : ℕ) (started : ℕ → Bool)
    → n < fuel
    → k + n ≡ m
    → started m ≡ true
    → busy_wait fuel k started ≡ true
unfolding busy_wait
busy_wait_found zero k n m started l a e = absurd (omega arith)
busy_wait_found (suc fuel) k zero m started l a e = let at : k ≡ m = omega arith in rw (at, e)
busy_wait_found (suc fuel) k (suc n) m started l a e =
    rw (busy_wait_found fuel (k + 1) n m started (omega arith) (omega arith) e) (ground arith)

-- As soon as a read of the event, the `n`-th, finds the clock started: with fuel for more than `n`
-- reads, `pre_init` ends, whatever the registers were. Then the clock is the crystal's, the LEDs are
-- dark and their pins outputs, the serial interface and the I2C host are enabled and connected,
-- on pins that differ from each other and from those of the LEDs, SCL and SDA are inputs with
-- pull-ups, the interrupts that the handlers serve are enabled, and the counter of the timer runs
-- from 0.
pub pre_init-IsReady :
    (fuel n : ℕ) (started : ℕ → Bool) (b : Board)
    → n < fuel
    → started n ≡ true
    → (b' : Board) × (pre_init fuel started b ≡ booted b') × IsReady b'
unfolding pre_init
pre_init-IsReady fuel n started b l e =
    (started_up b, rw (busy_wait_found fuel 0 n n started l (omega arith) e), started_up-IsReady b)
