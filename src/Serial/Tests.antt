-- ===== src/Serial/Tests.antt =====
-- nrf52/src/serial.rs: a read and a write at the same time, and a write of three bytes.
use async_on_embedded.Serial.{not_started, in_progress, Dma, poll_read, poll_write, handler}
use async_on_embedded.Serial.Waiting.{
  System, IsSound, Reach, here, next, polled_read, polled_write, ended, interrupted, serviced,
  reached-IsSound,
}
use async_on_embedded.Serial.Await.{Change}
use async_on_embedded.WakerSet.Tests.{quiet}
use async_on_embedded.Serial.Link
use async_on_embedded.Serial.Link.{Link}
use async_on_embedded.Serial.Link.Moves.{Sends, write-Sends}
use async_on_embedded.Serial.Link.Reads.{Receives, read-Receives}
use async_on_embedded.Twim.{slice_in_ram}
use async_on_embedded.Runtime.{pending}
use async_on_embedded.Prelude.{
  ◌==◌, ◌<◌, ◌⊎◌, if◌then◌else◌, ℕ, ◌≤◌, ◌≡◌, refl, true, false, none, some, [], ◌∷◌, arith,
}

abbrev dma : ℕ → ℕ → Dma
dma ptr maxcnt = record { ptr = ptr; maxcnt = maxcnt }

abbrev reset : System
reset = record {
  uarte = record {
    endrx = false;
    endtx = false;
    rxd = dma 0 0;
    txd = dma 0 0;
    started_rx = 0;
    started_tx = 0;
    unmasked = false;
    rx_waker = none;
    tx_waker = none;
    world = quiet;
  };
  rx = not_started;
  tx = not_started;
}

abbrev reading : System
reading = record {
  uarte = record (serviced 20 reset.uarte) {
    rxd = dma 64 8;
    started_rx = 1;
    unmasked = true;
    rx_waker = some 20;
  };
  rx = in_progress;
  tx = not_started;
}

abbrev both : System
both = record {
  uarte = record (serviced 30 reading.uarte) { txd = dma 96 3; started_tx = 1; tx_waker = some 30 };
  rx = in_progress;
  tx = in_progress;
}

abbrev sent : System
sent = record both { uarte = record both.uarte { endrx = false; endtx = true } }

abbrev woken : System
woken = record sent { uarte = handler sent.uarte }

read-started :
    poll_read 20 64 8 not_started (serviced 20 reset.uarte)
    ≡ some (pending, in_progress, reading.uarte)
unfolding poll_read
read-started = refl

write-started :
    poll_write 30 96 3 not_started (serviced 30 reading.uarte)
    ≡ some (pending, in_progress, both.uarte)
unfolding poll_write
write-started = refl

both-reached : Reach 20 30 reset woken
both-reached =
    next
      (next
        (next (next here (polled_read reset 64 8 pending in_progress reading.uarte read-started))
          (polled_write reading 96 3 pending in_progress both.uarte write-started))
        (ended both false true))
      (interrupted sent refl)

reached-IsSound_example : IsSound 20 30 woken
reached-IsSound_example =
    reached-IsSound 20 30 (λ e. ground arith) {s = reset} {t = woken} (λ e. cc) (λ e. cc) refl refl
      both-reached

-- an interrupt for the other direction, and the end of both
abbrev neither : Change
neither = record { endrx = false; endtx = false }

abbrev ends : Change
ends = record { endrx = true; endtx = true }

-- three bytes to come, and the same three in flash
abbrev line : Link
line = record {
  uarte = reset.uarte;
  mem = λ a. if 500 == a then 7 else if 501 == a then 8 else if 502 == a then 9 else 0;
  input = 7 ∷ 8 ∷ 9 ∷ [];
  sent = 1 ∷ [];
}

write-Sends_example :
    (((slice_in_ram (record { ptr = 500; len = 3 }) ≡ false) ⊎ (3 < 1024))
      × ((l' : Link) × (Link.write 20 (neither ∷ []) 0x2000_0100 500 3 line ≡ some l')
          × Sends 0x2000_0100 line (7 ∷ 8 ∷ 9 ∷ []) l'))
    ⊎ ((slice_in_ram (record { ptr = 500; len = 3 }) ≡ true)
        × (1024 ≤ 3)
        × (Link.write 20 (neither ∷ []) 0x2000_0100 500 3 line ≡ none))
write-Sends_example = write-Sends 20 (neither ∷ []) 0x2000_0100 500 3 line (refl, tt) (refl, tt)

read-Receives_example :
    ((2 < 1024)
      × (2 ≤ 3)
      × ((l' : Link) × (Link.read 20 (neither ∷ []) 0x2000_0400 2 line ≡ some l')
          × Receives 0x2000_0400 2 line l'))
    ⊎ (((1024 ≤ 2) ⊎ (3 < 2)) × (Link.read 20 (neither ∷ []) 0x2000_0400 2 line ≡ none))
read-Receives_example = read-Receives 20 (neither ∷ []) 0x2000_0400 2 line (refl, tt) (refl, tt)
