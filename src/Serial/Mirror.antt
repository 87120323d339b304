-- ===== src/Serial/Mirror.antt =====
-- nrf52/src/serial.rs: the transmitter against the receiver.
use async_on_embedded.Prelude.{ℕ, ◌==◌, ◌≡◌, refl, Option, some, none, inl, inr, Bool-cases}
use async_on_embedded.Runtime.{Poll}
use async_on_embedded.Serial.{
  State, not_started, in_progress, finished, Uarte, poll_read, poll_write, start_read, start_write,
  finish_read, finish_write,
}

-- the interface with its two directions exchanged
abbrev pub mirror : Uarte → Uarte
mirror u = record u {
  endrx = u.endtx;
  endtx = u.endrx;
  rxd = u.txd;
  txd = u.rxd;
  started_rx = u.started_tx;
  started_tx = u.started_rx;
  rx_waker = u.tx_waker;
  tx_waker = u.rx_waker;
}

abbrev pub mirrored : Option (Poll × State × Uarte) → Option (Poll × State × Uarte)
mirrored none = none
mirrored (some (p, s, u)) = some (p, s, mirror u)

-- A poll of `Write` is a poll of `Read` with the two directions of the interface exchanged, in
-- every state of the future and of the interface.
pub poll_write-mirror :
    (waker ptr len : ℕ) (s : State) (u : Uarte)
    → poll_write waker ptr len s u ≡ mirrored (poll_read waker ptr len s (mirror u))
unfolding poll_write poll_read start_read start_write finish_read finish_write
poll_write-mirror waker ptr len not_started u = elim (Bool-cases (len == 0)) [
  | inl e ↦ rw e
  | inr e ↦ rw e
]
poll_write-mirror waker ptr len in_progress u = elim (Bool-cases u.endtx) [
  | inl e ↦ rw e
  | inr e ↦ rw e
]
poll_write-mirror waker ptr len finished u = refl
