-- ===== src/Examples/Tests.antt =====
-- nrf52/examples: the programs with task A at the flag 20 and task B at the flag 10, and the console
-- over the formats of Examples/Console/Sample.
use async_on_embedded.Prelude.{
  none, ℕ, ◌+◌, ◌*◌, ◌≡◌, ◌≢◌, ◌≤◌, refl, true, false, some, List, [], ◌∷◌, ◌++◌, arith, length,
}
use async_on_embedded.Executor.{Machine, returned}
use async_on_embedded.Runtime.{store}
use async_on_embedded.Slab.Lists.{list_slab}
use async_on_embedded.Mutex
use async_on_embedded.Channel.Futures.{IsSound}
use async_on_embedded.WakerSet.Tests.{quiet}
use async_on_embedded.Host
use async_on_embedded.Serial.Link.{Link}
use async_on_embedded.Examples.Echo.{text, echo, echo_lem}
use async_on_embedded.Ds3231.{pos, set_date_bytes, invalid_date}
use async_on_embedded.Ds3231.Calendar.{Clock, calendar}
use async_on_embedded.Examples.Locking
use async_on_embedded.Examples.Locking.Run.{lock_run}
use async_on_embedded.Examples.Messages
use async_on_embedded.Examples.Messages.Run.{message_run}
use async_on_embedded.Examples.Console.{
  full, answers, set_date, from_str, receive_all, help, cmd_help, cmd_set_date, cmd_set_time,
  cmd_date, Text,
}
use async_on_embedded.Examples.Console.Parsing.{typed, from_str-typed, from_str-accepted}
use async_on_embedded.Examples.Console.Lines.{is_line-IsLine}
use async_on_embedded.Examples.Console
use async_on_embedded.Examples.Console.Report.{joined}
use async_on_embedded.Bus.Registers.{Registers, file_bus, file_bus-IsRegisters}
use async_on_embedded.Ds3231.Driver.{address}
use async_on_embedded.Examples.Console.Session.{newline, prompt, Cells, session}
use async_on_embedded.Examples.Console.Session.Setting.{FitsLine, set_then_date}
use async_on_embedded.Examples.Console.Sample.{parse_date, parse_time, sample_formats}

-- the machine whose only task is A, about to be polled
abbrev spawned : {U : Type 0} → U → Machine U
spawned u = record {
  world = record quiet { ready = store quiet.ready 20 true };
  init = true;
  alloc = record { len = 1024; pos = 5; start = 0x2000_0000 };
  in_block_on = false;
  tasks = 20 ∷ [];
  user = u;
}

abbrev locked : Locking.Shared list_slab ℕ
locked = record {
  mutex = record (Mutex.new list_slab ℕ 0) { locked = true };
  lines = [];
  main = Locking.start;
  task = Locking.holding;
}

initial-locked : Locking.initial list_slab ℕ 0 ≡ some locked
unfolding Locking.initial Mutex.try_lock Mutex.new
initial-locked = refl

lock_run_example :
    (m' : Locking.Program list_slab ℕ) × (Locking.run list_slab ℕ 42 2 10 (spawned locked)
      ≡ returned tt m')
    × (m'.user.lines
        ≡ Locking.b_before_lock
          ∷ Locking.a_before_write
          ∷ Locking.a_after_release
          ∷ Locking.a_yield
          ∷ Locking.b_value 42
          ∷ Locking.done
          ∷ [])
    × (m'.user.mutex.value ≡ 42)
lock_run_example =
    lock_run list_slab ℕ 42 0 10 20 (spawned locked)
      (record { outside = refl; spawned = refl; up = refl; value = 0; made = initial-locked })
      (λ e. ground arith)

message_run_example :
    (m' : Messages.Program list_slab ℕ) × (Messages.run list_slab ℕ 42 2 10
        (spawned (Messages.initial list_slab ℕ))
      ≡ returned tt m')
    × (m'.user.lines
        ≡ Messages.b_before_recv
          ∷ Messages.a_before_send
          ∷ Messages.a_after_send
          ∷ Messages.a_yield
          ∷ Messages.b_message 42
          ∷ Messages.done
          ∷ [])
    × IsSound list_slab ℕ [] m'.user.channel
message_run_example =
    message_run list_slab ℕ 42 0 10 20 (spawned (Messages.initial list_slab ℕ))
      (record { outside = refl; spawned = refl; up = refl; made = refl }) (λ e. ground arith)

-- 28 February 2020
abbrev day : ℕ
day = 2020 * 416 + 28 * 13 + 2

-- two spaces, and a line feed
abbrev before : List ℕ
before = 32 ∷ 32 ∷ []

abbrev after : List ℕ
after = 10 ∷ []

from_str-typed_example :
    from_str calendar parse_date parse_time
      (before ++ (typed calendar parse_date parse_time sample_formats (set_date day) ++ after))
    ≡ some (set_date day)
unfolding Console.is_whitespace
from_str-typed_example =
    from_str-typed calendar parse_date parse_time sample_formats (set_date day) before after
      (omega arith, omega arith) (refl, (refl, tt)) (refl, tt)

-- "set date 2020-02-28" and a line feed
abbrev set_line : List ℕ
set_line = cmd_set_date ++ (sample_formats.format_date day ++ after)

set_line-parses : from_str calendar parse_date parse_time set_line ≡ some (set_date day)
unfolding Console.is_whitespace
set_line-parses =
    from_str-typed calendar parse_date parse_time sample_formats (set_date day) [] after
      (omega arith, omega arith) tt (refl, tt)

from_str-accepted_example : set_date_bytes calendar day ≢ invalid_date
from_str-accepted_example =
    from_str-accepted calendar parse_date parse_time set_line day set_line-parses

-- 18:49:30
abbrev evening : Clock
evening = (67770, omega arith)

abbrev zeros : Registers
zeros a = 0

abbrev no_cells : Cells
no_cells = record { co2 = 0; t = pos 0; rh = 0 }

abbrev show : ℕ → Clock → List Text
show d t = sample_formats.format_date d ∷ (32 ∷ []) ∷ sample_formats.format_time t ∷ []

day-FitsLine : FitsLine (sample_formats.format_date day)
unfolding sample_formats
day-FitsLine = (is_line-IsLine (sample_formats.format_date day) refl, omega arith)

evening-FitsLine : FitsLine (sample_formats.format_time evening)
unfolding sample_formats
evening-FitsLine = (is_line-IsLine (sample_formats.format_time evening) refl, omega arith)

shown-fits : length (joined (show day evening ++ (newline ∷ []))) ≤ 32
unfolding sample_formats
shown-fits = omega arith

set_then_date_example :
    (last : Registers) × (session calendar file_bus no_cells show parse_date parse_time
        (cmd_set_date
          ++ sample_formats.format_date day
          ++ (13
              ∷ (cmd_set_time
                  ++ sample_formats.format_time evening
                  ++ (13 ∷ (cmd_date ++ (13 ∷ []))))))
        zeros
      ≡ some (
        prompt ∷ prompt ∷ prompt ∷ joined (show day evening ++ (newline ∷ [])) ∷ prompt ∷ [],
        last,
      ))
set_then_date_example =
    set_then_date calendar file_bus (file_bus-IsRegisters address) no_cells show parse_date
      parse_time sample_formats day evening zeros (omega arith, omega arith) refl day-FitsLine
      evening-FitsLine shown-fits

-- the text of 6-hello.rs at the address 400, and three bytes to come
abbrev line : Link
line = record {
  uarte = record {
    endrx = false;
    endtx = false;
    rxd = record { ptr = 0; maxcnt = 0 };
    txd = record { ptr = 0; maxcnt = 0 };
    started_rx = 0;
    started_tx = 0;
    unmasked = false;
    rx_waker = none;
    tx_waker = none;
    world = quiet;
  };
  mem = Host.store 400 text (λ a. 0);
  input = 7 ∷ 8 ∷ 9 ∷ [];
  sent = [];
}

echo_lem_example :
    (l' : Link) × (echo 20 [] 0x2000_0100 0x2000_0400 2 line ≡ some l')
    × (l'.sent ≡ 7 ∷ 8 ∷ [])
    × (l'.input ≡ 9 ∷ [])
echo_lem_example = echo_lem 20 [] 0x2000_0100 0x2000_0400 2 line (omega arith) tt tt
