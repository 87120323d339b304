-- ===== src/Twim0.antt =====
-- nrf52/src/twim.rs: the registers of TWIM0 and the data types of the driver, a slice being its
-- address and length. `reset` puts the reset value, 0, into a register.
use async_on_embedded.Prelude.{ℕ, Bool, Option, List}
use async_on_embedded.Runtime.{World}

pub data State : Type 0 where
  not_started in_progress finished : State

pub data Error : Type 0 where
  short_write short_read src : ℕ → Error

-- `Poll<Result<(), Error>>`
pub data Answer : Type 0 where
  pending : Answer
  done : Answer
  failed : Error → Answer

pub data Task : Type 0 where
  startrx starttx stop : Task

pub record Slice : Type 0 where
  pub ptr : ℕ
  pub len : ℕ

-- The shortcuts `lasttx_startrx`, `lasttx_stop` and `lastrx_stop`.
pub record Shorts : Type 0 where
  pub lasttx_startrx : Bool
  pub lasttx_stop : Bool
  pub lastrx_stop : Bool

-- A DMA channel: `ptr`, `maxcnt` and `amount`.
pub record Dma : Type 0 where
  pub ptr : ℕ
  pub maxcnt : ℕ
  pub amount : ℕ

pub record Events : Type 0 where
  pub error : Bool
  pub stopped : Bool
  pub rxstarted : Bool
  pub txstarted : Bool
  pub lastrx : Bool
  pub lasttx : Bool

pub record Twim : Type 0 where
  pub events : Events
  pub errorsrc : ℕ
  pub address : ℕ
  pub rxd : Dma
  pub txd : Dma
  pub shorts : Shorts
  -- the tasks triggered, the last one first
  pub tasks : List Task
  pub unmasked : Bool
  pub waker : Option ℕ
  pub world : World
