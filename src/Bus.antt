-- ===== src/Bus.antt =====
-- nrf52/src/twim.rs as its clients nrf52/src/ds3231.rs and nrf52/src/scd30.rs see it: the three
-- transactions, each awaited to its end while the client holds the lock of the bus. A buffer that
-- is read into is what it holds at the end.
pub mod Registers
use async_on_embedded.Prelude.{ℕ, zero, suc, ◌+◌, ◌≡◌, List, [], ◌∷◌, length}
use async_on_embedded.Twim0.{Error}

-- `Result<A, twim::Error>`
pub data Reply (A : Type 0) : Type 0 where
  ok : A → Reply A
  err : Error → Reply A

pub record Bus : Type 1 where
  pub St : Type 0
  -- address and bytes
  pub write : ℕ → List ℕ → St → Reply (Unit {0}) × St
  -- address and length of the buffer
  pub read : ℕ → ℕ → St → Reply (List ℕ) × St
  -- address, bytes, and length of the buffer
  pub write_then_read : ℕ → List ℕ → ℕ → St → Reply (List ℕ) × St
