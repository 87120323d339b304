-- ===== src/Twim/Tests.antt =====
-- nrf52/src/twim.rs: registers after short and after failed transfers.
use async_on_embedded.Twim.{poll_read}
use async_on_embedded.Twim0.{
  not_started, in_progress, finished, src, pending, failed, Slice, Dma, Twim,
}
use async_on_embedded.Twim.Errors.{read_error_sticks}
use async_on_embedded.Twim.Await.{Change, panicked, write_from_ram_then_read}
use async_on_embedded.Twim.Await.Combined.{combined_lem}
use async_on_embedded.Twim.Staging.{Memory}
use async_on_embedded.WakerSet.Tests.{quiet}
use async_on_embedded.Prelude.{ℕ, ◌%◌, ◌≡◌, refl, inr, Bool, true, false, none, some, [], ◌∷◌}

abbrev dma : ℕ → Dma
dma amount = record { ptr = 0x2000_0000; maxcnt = 3; amount = amount }

-- The registers with this amount read, and the events of an error and of the stop.
abbrev registers : ℕ → Bool → Bool → Twim
registers amount error stopped = record {
  events = record {
    error = error;
    stopped = stopped;
    rxstarted = false;
    txstarted = false;
    lastrx = true;
    lasttx = false;
  };
  errorsrc = 2;
  address = 0x68;
  rxd = dma amount;
  txd = dma 1;
  shorts = record { lasttx_startrx = false; lasttx_stop = false; lastrx_stop = true };
  tasks = [];
  unmasked = false;
  waker = none;
  world = quiet;
}

abbrev buffer : Slice
buffer = record { ptr = 0x2000_0000; len = 3 }

abbrev byte : Slice
byte = record { ptr = 0x2000_0010; len = 1 }

read_error_sticks_example :
    (t' t'' : Twim) × (poll_read 20 0x68 buffer in_progress (registers 2 true false)
      ≡ some (failed (src (2 % 256)), finished, t'))
    × (poll_read 30 0x1d byte not_started t' ≡ some (pending, in_progress, t''))
    × ((u : Twim)
        → u.events.error ≡ t''.events.error
        → (u' : Twim) × (poll_read 30 0x1d byte in_progress u
            ≡ some (failed (src (u.errorsrc % 256)), finished, u')))
read_error_sticks_example =
    read_error_sticks 20 0x68 30 0x1d buffer byte (registers 2 true false) refl refl

-- the start of a transfer, and its end with two bytes moved
abbrev started : Change
started = record {
  events = record (registers 0 false false).events { rxstarted = true };
  errorsrc = 0;
  read_amount = 0;
  write_amount = 0;
}

abbrev ended : Change
ended = record {
  events = (registers 2 false true).events;
  errorsrc = 0;
  read_amount = 2;
  write_amount = 3;
}

combined_lem_example :
    (t' : Twim) × (write_from_ram_then_read 20 0x68 byte buffer
        (registers 0 false false)
        (started ∷ ended ∷ [])
      ≡ panicked)
combined_lem_example =
    combined_lem 20 0x68 byte buffer (registers 0 false false) (started ∷ []) ended
      ((refl, refl), tt) (inr refl)

-- bytes in flash, and a memory of them
abbrev in_flash : Slice
in_flash = record { ptr = 0x1000; len = 3 }

abbrev low_bits : Memory
low_bits a = a % 256
