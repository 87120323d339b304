-- ===== src/Boot.antt =====
-- nrf52/src/lib.rs: `pre_init`, which sets the registers up before main, and the `init` of
-- nrf52/src/serial.rs, nrf52/src/twim.rs and nrf52/src/timer.rs. A register is the value written; a
-- write of 1 to a bit of INTENSET sets it and leaves the others.
pub mod Ready
mod Tests
use async_on_embedded.Prelude.{
  ℕ, zero, suc, ◌+◌, ◌≡◌, Bool, true, false, Option, none, some, List, [], ◌∷◌, ◌==◌, if◌then◌else◌,
  ◌>>=◌,
}
use async_on_embedded.Led
use async_on_embedded.Led.{Port}

-- PSEL: a pin of a port, connected or not
pub record Psel : Type 0 where
  pub pin : ℕ
  pub port : Bool
  pub connected : Bool

-- PIN_CNF, less the direction, which is that of the port
pub record PinCnf : Type 0 where
  pub input_connected : Bool
  pub pullup : Bool
  pub open_drain : Bool
  pub sense : Bool

pub record Uarte : Type 0 where
  pub rxd : Psel
  pub txd : Psel
  pub enabled : Bool
  pub int_endrx : Bool
  pub int_endtx : Bool
  pub baudrate : ℕ

pub record Twim : Type 0 where
  pub scl : Psel
  pub sda : Psel
  pub enabled : Bool
  pub int_error : Bool
  pub int_stopped : Bool
  pub frequency : ℕ

pub record Rtc : Type 0 where
  pub int_compare0 : Bool
  pub counter : ℕ
  pub running : Bool

pub record Clock : Type 0 where
  pub xtal : Bool
  pub start_triggered : Bool

pub record Board : Type 0 where
  pub clock : Clock
  pub port : Port
  pub pin_cnf : ℕ → PinCnf
  pub uarte : Uarte
  pub twim : Twim
  pub rtc : Rtc

-- `serial::init`
init_serial : Board → Board
init_serial b = record b {
  uarte = record b.uarte {
    rxd = record { pin = 8; port = false; connected = true };
    txd = record { pin = 6; port = false; connected = true };
    enabled = true;
    int_endtx = true;
    int_endrx = true;
    baudrate = 9600;
  };
}

abbrev pub pulled_up : PinCnf
pulled_up = record { input_connected = true; pullup = true; open_drain = true; sense = false }

-- an input with a pull-up
configure : ℕ → Board → Board
configure pin b = record b {
  pin_cnf = λ n. if pin == n then pulled_up else b.pin_cnf n;
  port = record b.port { is_output = λ n. if pin == n then false else b.port.is_output n };
}

-- `twim::init`
init_twim : Board → Board
unfolding configure
init_twim b =
    let b' = configure 27 (configure 26 b) in
    record b' {
      twim = record b'.twim {
        scl = record { pin = 27; port = false; connected = true };
        sda = record { pin = 26; port = false; connected = true };
        enabled = true;
        frequency = 100000;
        int_error = true;
        int_stopped = true;
      };
    }

-- `timer::init`: TASKS_CLEAR and TASKS_START act on the counter.
init_timer : Board → Board
init_timer b = record b { rtc = record { int_compare0 = true; counter = 0; running = true } }

-- `pre_init` behind the clock
init_all : Board → Board
unfolding init_serial init_twim init_timer
init_all b = init_timer (init_twim (init_serial (record b { port = Led.init b.port })))

start_clock : Board → Board
start_clock b = record b { clock = record { xtal = true; start_triggered = true } }

-- The busy wait: `started k` is what the k-th read of EVENTS_LFCLKSTARTED finds. Whether a read among
-- those of the fuel found it set.
busy_wait : ℕ → ℕ → (ℕ → Bool) → Bool
busy_wait zero k started = false
busy_wait (suc fuel) k started =
    let rest = busy_wait fuel (k + 1) started in if started k then true else rest

pub data Boot : Type 0 where
  booted : Board → Boot
  waiting : Board → Boot

pub pre_init : ℕ → (ℕ → Bool) → Board → Boot
unfolding init_all start_clock busy_wait
pre_init fuel started b =
    let b' = start_clock b in if busy_wait fuel 0 started then booted (init_all b') else waiting b'
