-- ===== src/Examples/Heartbeat/Tests.antt =====
-- nrf52/examples/5-heartbeat.rs: the first wait is over.
use async_on_embedded.Prelude.{◌≡◌, ◌⊎◌, true, false, some}
use async_on_embedded.Examples.Heartbeat.{first_on, first_off, begins, waits, Board, poll, blocked}
use async_on_embedded.Examples.Heartbeat.Beats.{Waits, rearmed, beats}
use async_on_embedded.WakerSet.Tests.{quiet}

abbrev due : Board
due = record {
  rtc = record {
    counter = 3276;
    events_compare = true;
    cc = 3276;
    unmasked = false;
    waker = some 20;
    world = quiet;
  };
  port = record { high = λ n. false; is_output = λ n. true };
}

beats_example :
    ((b' : Board) × (poll 3 20 (begins first_on) due ≡ blocked (waits first_on false) b')
      × Waits 20 first_on 3276 b')
    × (((due.rtc.events_compare ≡ true)
          × ((b' : Board) × (poll 3 20 (waits first_on false) due
                ≡ blocked (waits first_off false) b')
              × Waits 20 first_off 3276 b'))
        ⊎ ((due.rtc.events_compare ≡ false)
            × (poll 3 20 (waits first_on false) due
                ≡ blocked (waits first_on false) (rearmed 20 due))))
beats_example = beats 0 20 first_on due
