-- ===== src/Boot/Tests.antt =====
-- nrf52/src/lib.rs: a clock that is started at the third read.
use async_on_embedded.Prelude.{◌≡◌, refl, true, false, arith, leb}
use async_on_embedded.Boot.{Psel, PinCnf, Board, booted, pre_init}
use async_on_embedded.Boot.Ready.{IsReady, pre_init-IsReady}

abbrev no_pin : Psel
no_pin = record { pin = 31; port = true; connected = false }

abbrev unconfigured : PinCnf
unconfigured = record { input_connected = false; pullup = false; open_drain = false; sense = false }

abbrev reset : Board
reset = record {
  clock = record { xtal = false; start_triggered = false };
  port = record { high = λ n. false; is_output = λ n. false };
  pin_cnf = λ n. unconfigured;
  uarte = record {
    rxd = no_pin;
    txd = no_pin;
    enabled = false;
    int_endrx = false;
    int_endtx = false;
    baudrate = 0;
  };
  twim = record {
    scl = no_pin;
    sda = no_pin;
    enabled = false;
    int_error = false;
    int_stopped = false;
    frequency = 0;
  };
  rtc = record { int_compare0 = false; counter = 0; running = false };
}

pre_init-IsReady_example : (b' : Board) × (pre_init 5 (leb 2) reset ≡ booted b') × IsReady b'
pre_init-IsReady_example = pre_init-IsReady 5 2 (leb 2) reset (omega arith) refl
