-- ===== src/Host/Tests.antt =====
-- nrf52/src/twim.rs: a wire with one device that is a file of registers.
use async_on_embedded.Prelude.{ℕ, true, false, none, List, [], ◌∷◌, length}
use async_on_embedded.Bus.Registers.{Registers, load, store_all}
use async_on_embedded.Host.{Wire, Host}
use async_on_embedded.Twim.Await.{Change}
use async_on_embedded.Twim0.{Slice, Dma}
use async_on_embedded.WakerSet.Tests.{quiet}

abbrev stored : List ℕ → Registers → Registers
stored [] r = r
stored (a ∷ rest) r = store_all a rest r

abbrev named : List ℕ → ℕ
named [] = 0
named (a ∷ rest) = a

-- the interrupt of a start
abbrev started : Change
started = record {
  events = record {
    error = false;
    stopped = false;
    rxstarted = true;
    txstarted = false;
    lastrx = false;
    lasttx = false;
  };
  errorsrc = 0;
  read_amount = 0;
  write_amount = 0;
}

abbrev file_wire : Wire
file_wire = record {
  Device = Registers;
  transfer = λ address bytes len r. record {
    error = none;
    sent = length bytes;
    received = load (named bytes) len (stored bytes r);
    device = stored bytes r;
    noise = started ∷ [];
  };
}

abbrev dma : Dma
dma = record { ptr = 0; maxcnt = 0; amount = 0 }

abbrev host : Host file_wire
host = record {
  twim = record {
    events = record started.events { rxstarted = false };
    errorsrc = 0;
    address = 0;
    rxd = dma;
    txd = dma;
    shorts = record { lasttx_startrx = false; lasttx_stop = false; lastrx_stop = false };
    tasks = [];
    unmasked = false;
    waker = none;
    world = quiet;
  };
  mem = λ a. a;
  device = λ a. 0;
}

-- two bytes in flash, and a buffer of seven
abbrev command : Slice
command = record { ptr = 0x1000; len = 2 }

abbrev buffer : Slice
buffer = record { ptr = 0x2000_0100; len = 7 }
