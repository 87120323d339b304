-- ===== src/Host.antt =====
-- nrf52/src/twim.rs from end to end: `read`, `write` and `write_then_read` with the staging of the
-- bytes, the polls and interrupts, the DMA and the device. What happens on the wire is a parameter.
pub mod Bytes
pub mod Serving
pub mod Methods
pub mod Refines
mod Tests
use async_on_embedded.Prelude.{
  ◌||◌, ◌&&◌, ℕ, zero, suc, ◌+◌, ◌%◌, ◌<◌, ◌≡◌, Bool, true, false, not, Option, none, some, List,
  [], ◌∷◌, ◌++◌, length, is_some, ◌==◌, if◌then◌else◌, ◌>>=◌,
}
use async_on_embedded.Bus.{Bus, Reply, ok, err}
use async_on_embedded.Bus.Registers.{load}
use async_on_embedded.Twim.{Polled, poll_read, poll_write, poll_write_then_read}
use async_on_embedded.Twim.Await
use async_on_embedded.Twim.Await.{Change, Awaited, answered, panicked, waiting, AllSpurious}
use async_on_embedded.Twim.Staging.{Memory, stage_write, stage_write_then_read}
use async_on_embedded.Twim0.{
  Events, State, not_started, Error, src, Answer, pending, done, failed, Task, startrx, starttx,
  stop, Slice, Twim,
}

-- How a transaction goes: the error register, if there was an error; how many bytes were sent, and
-- which were received; the device afterwards; and the interrupts before the last one.
pub record Outcome (D : Type 0) : Type 0 where
  pub error : Option ℕ
  pub sent : ℕ
  pub received : List ℕ
  pub device : D
  pub noise : List Change

-- The wire and the device: from the address, the bytes to send, and how many to receive.
pub record Wire : Type 1 where
  pub Device : Type 0
  pub transfer : ℕ → List ℕ → ℕ → Device → Outcome Device

-- A transaction without an error is complete, and only its end is reported as an end.
pub record IsComplete (W : Wire) : Type 0 where
  pub sent-all :
      (address : ℕ) (bytes : List ℕ) (len : ℕ) (d : W.Device)
      → (W.transfer address bytes len d).error ≡ none
      → (W.transfer address bytes len d).sent ≡ length bytes
  pub received-all :
      (address : ℕ) (bytes : List ℕ) (len : ℕ) (d : W.Device)
      → (W.transfer address bytes len d).error ≡ none
      → length (W.transfer address bytes len d).received ≡ len
  pub noise-AllSpurious :
      (address : ℕ) (bytes : List ℕ) (len : ℕ) (d : W.Device)
      → AllSpurious (W.transfer address bytes len d).noise

-- what the DMA leaves in memory
abbrev pub store : ℕ → List ℕ → Memory → Memory
store ptr [] mem a = mem a
store ptr (b ∷ bytes) mem a = if ptr == a then b else store (ptr + 1) bytes mem a

abbrev pub replied : {A : Type 0} → Option ℕ → A → Reply A
replied none x = ok x
replied (some e) x = err (src (e % 256))

-- ERRORSRC
abbrev pub source : Option ℕ → ℕ
source none = 0
source (some e) = e

abbrev pub either : Events → Events → Events
either e e' = record {
  error = e.error || e'.error;
  stopped = e.stopped || e'.stopped;
  rxstarted = e.rxstarted || e'.rxstarted;
  txstarted = e.txstarted || e'.txstarted;
  lastrx = e.lastrx || e'.lastrx;
  lasttx = e.lasttx || e'.lasttx;
}

-- the event registers at each interrupt, from what they are and the events that are raised
pub accumulated : Events → List Change → List Change
accumulated e [] = []
accumulated e (c ∷ changes) =
    let e' = either e c.events in record c { events = e' } ∷ accumulated e' changes

-- what the last interrupt is for
abbrev pub last : {D : Type 0} → Outcome D → Change
last r = record {
  events = record {
    error = is_some r.error;
    stopped = not (is_some r.error);
    rxstarted = false;
    txstarted = false;
    lastrx = false;
    lasttx = false;
  };
  errorsrc = source r.error;
  read_amount = length r.received;
  write_amount = r.sent;
}

module _ (W : Wire) where
  open W use {Device}

  -- The bus as it is seen from the wire.
  abbrev pub wire_bus : Bus
  wire_bus = record {
    St = Device;
    write =
        λ address bytes d. let r = W.transfer address bytes 0 d in (replied r.error tt, r.device);
    read = λ address len d.
        let r = W.transfer address [] len d in (replied r.error r.received, r.device);
    write_then_read = λ address bytes len d.
        let r = W.transfer address bytes len d in (replied r.error r.received, r.device);
  }

  pub record Host : Type 0 where
    pub twim : Twim
    pub mem : Memory
    pub device : Device

  -- What the task that was triggered last makes the wire do, by the registers; nothing that would
  -- come to an end if the shortcut to STOP is missing.
  requested : Twim → List Task → Memory → Device → Option (Outcome Device)
  requested t [] mem d = none
  requested t (stop ∷ tasks) mem d = none
  requested t (startrx ∷ tasks) mem d =
      if t.shorts.lastrx_stop then some (W.transfer t.address [] t.rxd.maxcnt d) else none
  requested t (starttx ∷ tasks) mem d =
      let bytes = load t.txd.ptr t.txd.maxcnt mem in
      if t.shorts.lasttx_startrx && t.shorts.lastrx_stop
      then some (W.transfer t.address bytes t.rxd.maxcnt d)
      else if t.shorts.lasttx_stop
      then some (W.transfer t.address bytes 0 d)
      else none

  -- The interrupts, what has become of memory, and the device. Only the driver resets events: one
  -- that it has left behind is still there at every interrupt.
  served : Twim → Memory → Device → Option (Outcome Device) → List Change × Memory × Device
  served t mem d none = ([], mem, d)
  served t mem d (some r) =
      (accumulated t.events (r.noise ++ (last r ∷ [])), store t.rxd.ptr r.received mem, r.device)

  -- The hardware, once the first poll has set the registers.
  pub serve : Polled → Memory → Device → List Change × Memory × Device
  unfolding requested served accumulated
  serve none mem d = ([], mem, d)
  serve (some (a, s, t)) mem d = served t mem d (requested t t.tasks mem d)

  -- `none` is a panic, or a transaction that does not end.
  pub concluded : Awaited → Memory → Device → Option (Reply (Unit {0}) × Host)
  concluded (answered done t) mem d = some (ok tt, record { twim = t; mem = mem; device = d })
  concluded (answered (failed e) t) mem d = some (err e, record { twim = t; mem = mem; device = d })
  concluded (answered pending t) mem d = none
  concluded panicked mem d = none
  concluded (waiting s t) mem d = none

  module _ (waker stack : ℕ) where
    -- `Twim::read`
    pub read : ℕ → Slice → Host → Option (Reply (Unit {0}) × Host)
    unfolding serve concluded
    read address buf h =
        let (changes, mem, d) =
          serve (poll_read waker address buf not_started h.twim) h.mem h.device in
        concluded (Await.read waker address buf h.twim changes) mem d

    -- `Twim::write`, with its buffer at the address `stack`
    pub write : ℕ → Slice → Host → Option (Reply (Unit {0}) × Host)
    unfolding serve concluded
    write address bytes h = do
      (s, staged) ← stage_write stack bytes h.mem
      let (changes, mem, d) = serve (poll_write waker address s not_started h.twim) staged h.device
      concluded (Await.write_from_ram waker address s h.twim changes) mem d

    -- `Twim::write_then_read`
    pub write_then_read : ℕ → Slice → Slice → Host → Option (Reply (Unit {0}) × Host)
    unfolding serve concluded
    write_then_read address wr_buf rd_buf h = do
      (s, staged) ← stage_write_then_read stack wr_buf rd_buf h.mem
      let (changes, mem, d) =
          serve (poll_write_then_read waker address s rd_buf not_started h.twim) staged h.device
      concluded (Await.write_from_ram_then_read waker address s rd_buf h.twim changes) mem d
