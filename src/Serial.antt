-- ===== src/Serial.antt =====
-- nrf52/src/serial.rs: the serial interface. The registers of UARTE0, the interrupt that receiver
-- and transmitter share, and the two static wakers are the state. `none` is a panic.
pub mod Waiting
pub mod Chunks
pub mod Mirror
pub mod Await
pub mod Link
mod Tests
use async_on_embedded.Prelude.{
  ℕ, zero, suc, ◌+◌, ◌-◌, ◌*◌, ◌/◌, ◌%◌, ◌^◌, ◌≤◌, ◌<◌, ◌≡◌, refl, sym, ap, ◌∙◌, subst, ◌≢◌, ◌↔◌,
  ◌⊎◌, inl, inr, Bool, true, false, ◌&&◌, ◌||◌, not, Option, none, some, List, [], ◌∷◌, ◌++◌, map,
  arith, ltb, leb, ◌==◌, if◌then◌else◌, is_some, length, get_elem?, take, drop, ◌>>=◌,
}
use async_on_embedded.Runtime.{World, Poll, ready, pending, wake_by_ref}

pub data State : Type 0 where
  not_started in_progress finished : State

-- A DMA channel: `ptr` and `maxcnt`.
pub record Dma : Type 0 where
  pub ptr : ℕ
  pub maxcnt : ℕ

pub record Uarte : Type 0 where
  pub endrx : Bool
  pub endtx : Bool
  pub rxd : Dma
  pub txd : Dma
  -- how often the tasks STARTRX and STARTTX were triggered
  pub started_rx : ℕ
  pub started_tx : ℕ
  -- the interrupt UARTE0_UART0 is unmasked
  pub unmasked : Bool
  pub rx_waker : Option ℕ
  pub tx_waker : Option ℕ
  pub world : World

pub start_read : ℕ → ℕ → ℕ → Uarte → Uarte
start_read waker ptr len u = record u {
  endrx = false;
  rxd = record { ptr = ptr; maxcnt = len % 2 ^ 16 };
  rx_waker = some waker;
  unmasked = true;
  started_rx = u.started_rx + 1;
}

-- The waker is taken down; the interrupt stays enabled for the transmitter if that has a waker.
finish_read : Uarte → Poll × State × Uarte
finish_read u =
    if u.endrx
    then (
      ready,
      finished,
      record u { endrx = false; rx_waker = none; unmasked = is_some u.tx_waker },
    )
    else (pending, in_progress, record u { unmasked = true })

-- `Read::poll`: the waker, the address and the length of `buf`, the state of the future.
pub poll_read : ℕ → ℕ → ℕ → State → Uarte → Option (Poll × State × Uarte)
unfolding start_read finish_read
poll_read waker ptr len not_started u =
    some (
      if len == 0 then (ready, finished, u) else (pending, in_progress, start_read waker ptr len u))
poll_read waker ptr len in_progress u = some (finish_read u)
poll_read waker ptr len finished u = none

pub start_write : ℕ → ℕ → ℕ → Uarte → Uarte
start_write waker ptr len u = record u {
  endtx = false;
  txd = record { ptr = ptr; maxcnt = len % 2 ^ 16 };
  tx_waker = some waker;
  unmasked = true;
  started_tx = u.started_tx + 1;
}

finish_write : Uarte → Poll × State × Uarte
finish_write u =
    if u.endtx
    then (
      ready,
      finished,
      record u { endtx = false; tx_waker = none; unmasked = is_some u.rx_waker },
    )
    else (pending, in_progress, record u { unmasked = true })

-- `Write::poll`
pub poll_write : ℕ → ℕ → ℕ → State → Uarte → Option (Poll × State × Uarte)
unfolding start_write finish_write
poll_write waker ptr len not_started u =
    some (
      if len == 0
      then (ready, finished, u)
      else (pending, in_progress, start_write waker ptr len u))
poll_write waker ptr len in_progress u = some (finish_write u)
poll_write waker ptr len finished u = none

-- The `drop` of the two futures: `none` is the panic of `todo!`.
pub drop_future : State → Option (Unit {0})
drop_future not_started = some tt
drop_future in_progress = none
drop_future finished = some tt

abbrev pub wake_all : Option ℕ → World → World
wake_all none w = w
wake_all (some p) w = wake_by_ref p w

-- The interrupt handler UARTE0_UART0.
pub handler : Uarte → Uarte
handler u =
    let ran_a_waker = is_some u.rx_waker || is_some u.tx_waker in
    let world = wake_all u.tx_waker (wake_all u.rx_waker u.world) in
    record u { world = world; unmasked = (if ran_a_waker then false else u.unmasked) }

-- `chunks` of the slice, for the buffer of BUFSZ bytes; the fuel is the number of bytes.
pub chunks : ℕ → List ℕ → List (List ℕ)
chunks zero bytes = []
chunks (suc fuel) [] = []
chunks (suc fuel) (b ∷ bytes) = take 128 (b ∷ bytes) ∷ chunks fuel (drop 128 (b ∷ bytes))

-- `write_from_ram` of each, in order: `none` is a failed `assert!`.
pub all_short : List (List ℕ) → Option (List (List ℕ))
all_short [] = some []
all_short (s ∷ slices) = do
  rest ← all_short slices
  if ltb (length s) 1024 then some (s ∷ rest) else none

-- What `Tx::write` hands to `write_from_ram`, in order; `in_ram` is the answer of `slice_in_ram`.
pub write : Bool → List ℕ → Option (List (List ℕ))
write true bytes = all_short (bytes ∷ [])
write false bytes = all_short (chunks (length bytes) bytes)
