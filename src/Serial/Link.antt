-- ===== src/Serial/Link.antt =====
-- nrf52/src/serial.rs from end to end: `Rx::read` and `Tx::write` with the polls and interrupts, the
-- DMA, and the bytes on the two lines. `none` is a panic, or a read that waits for bytes that do not
-- come.
pub mod Moves
pub mod Reads
use async_on_embedded.Prelude.{
  ℕ, zero, suc, ◌+◌, ◌%◌, ◌≤◌, ◌<◌, ◌≡◌, Bool, true, false, Option, none, some, List, [], ◌∷◌, ◌++◌,
  length, take, drop, leb, if◌then◌else◌, ◌>>=◌,
}
use async_on_embedded.Bus.Registers.{load}
use async_on_embedded.Host.{store}
use async_on_embedded.Runtime.{Poll, ready, pending}
use async_on_embedded.Serial.{State, not_started, Uarte, poll_read, poll_write, chunks}
use async_on_embedded.Serial.Await
use async_on_embedded.Serial.Await.{Change, Awaited, answered, panicked, waiting}
use async_on_embedded.Twim.{slice_in_ram}
use async_on_embedded.Twim.Staging.{Memory}

-- `input` is yet to be received, `sent` has left.
pub record Link : Type 0 where
  pub uarte : Uarte
  pub mem : Memory
  pub input : List ℕ
  pub sent : List ℕ

abbrev pub ended : Change
ended = record { endrx = true; endtx = true }

pub blanks : ℕ → List ℕ
blanks zero = []
blanks (suc n) = 0 ∷ blanks n

-- The buffer of `Tx::write`, whose address is given, at first.
abbrev pub zeroed : ℕ → Link → Link
zeroed stack l = record l { mem = store stack (blanks 128) l.mem }

-- What the DMA does once the first poll has set the registers, if it has started a transfer.
received : Option (Poll × State × Uarte) → Link → Option Link
received none l = none
received (some (ready, s, u)) l = some l
received (some (pending, s, u)) l =
    let n = u.rxd.maxcnt in
    if leb n (length l.input)
    then some (record l { mem = store u.rxd.ptr (take n l.input) l.mem; input = drop n l.input })
    else none

transmitted : Option (Poll × State × Uarte) → Link → Option Link
transmitted none l = none
transmitted (some (ready, s, u)) l = some l
transmitted (some (pending, s, u)) l =
    some (record l { sent = l.sent ++ load u.txd.ptr u.txd.maxcnt l.mem })

concluded : Awaited → Link → Option Link
concluded (answered u) l = some (record l { uarte = u })
concluded panicked l = none
concluded (waiting s u) l = none

-- `early` are the interrupts that come before the one at the end of a transfer.
module _ (waker : ℕ) (early : List Change) where
  -- `Rx::read`
  pub read : ℕ → ℕ → Link → Option Link
  unfolding received concluded
  read ptr len l = do
    l' ← received (poll_read waker ptr len not_started l.uarte) l
    concluded (Await.read waker ptr len l.uarte (early ++ (ended ∷ []))) l'

  -- `Tx::write_from_ram`
  pub write_from_ram : ℕ → ℕ → Link → Option Link
  unfolding transmitted concluded
  write_from_ram ptr len l = do
    l' ← transmitted (poll_write waker ptr len not_started l.uarte) l
    concluded (Await.write_from_ram waker ptr len l.uarte (early ++ (ended ∷ []))) l'

  -- `stack` is the address of the buffer of `Tx::write`.
  module _ (stack : ℕ) where
    -- each chunk in turn, copied to the buffer
    write_chunks : List (List ℕ) → Link → Option Link
    write_chunks [] l = some l
    write_chunks (c ∷ slices) l = do
      l' ← write_from_ram stack (length c) (record l { mem = store stack c l.mem })
      write_chunks slices l'

    -- `Tx::write`
    pub write : ℕ → ℕ → Link → Option Link
    unfolding write_chunks
    write ptr len l =
        if slice_in_ram (record { ptr = ptr; len = len })
        then write_from_ram ptr len l
        else write_chunks (chunks len (load ptr len l.mem)) (zeroed stack l)
