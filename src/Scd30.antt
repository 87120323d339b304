-- ===== src/Scd30.antt =====
-- nrf52/src/scd30.rs: the driver of the gas sensor over the bus. `none` is a panic. A float is its
-- 32 bits, and a buffer is a list of bytes.
pub mod Measuring
mod Tests
use async_on_embedded.Prelude.{
  ℕ, zero, suc, ◌+◌, ◌*◌, ◌≡◌, Bool, true, false, ◌&&◌, not, Option, none, some, List, [], ◌∷◌,
  get_elem?, take, ◌==◌, if◌then◌else◌, ◌>>=◌,
}
use async_on_embedded.Bus.{Bus, Reply}
use async_on_embedded.Twim0.{Error}

pub record Measurement : Type 0 where
  pub co2 : ℕ
  pub rh : ℕ
  pub t : ℕ

-- ADDRESS
abbrev pub address : ℕ
address = 0x61

-- `Result<A, Error>`
pub data Measured (A : Type 0) : Type 0 where
  ok : A → Measured A
  checksum : Measured A
  twim : Error → Measured A

abbrev pub crc_check : List ℕ → ℕ → Bool
crc_check bytes crc = true

-- `f32::from_le_bytes`
abbrev pub from_le_bytes : ℕ → ℕ → ℕ → ℕ → ℕ
from_le_bytes a b c d = a + 256 * b + 65536 * c + 16777216 * d

-- The loop over `buf.chunks(3)`: whether every checksum fits; `none` is a chunk of fewer than three.
unfoldable pub check_chunks : List ℕ → Option Bool
check_chunks [] = some true
check_chunks (a ∷ []) = none
check_chunks (a ∷ b ∷ []) = none
check_chunks (a ∷ b ∷ c ∷ rest) = do
  others ← check_chunks rest
  some (crc_check (a ∷ b ∷ []) c && others)

unfoldable pub decode : List ℕ → Option Measurement
decode buf = do
  b0 ← get_elem? buf 0
  b1 ← get_elem? buf 1
  b3 ← get_elem? buf 3
  b4 ← get_elem? buf 4
  b6 ← get_elem? buf 6
  b7 ← get_elem? buf 7
  b9 ← get_elem? buf 9
  b10 ← get_elem? buf 10
  b12 ← get_elem? buf 12
  b13 ← get_elem? buf 13
  b15 ← get_elem? buf 15
  b16 ← get_elem? buf 16
  some (record {
    co2 = from_le_bytes b4 b3 b1 b0;
    t = from_le_bytes b10 b9 b7 b6;
    rh = from_le_bytes b16 b15 b13 b12;
  })

-- What `get_measurement` comes to: `waiting` is the end of the fuel, not of the loop.
pub data Outcome (St : Type 0) : Type 0 where
  answered : Measured Measurement → St → Outcome St
  panicked : Outcome St
  waiting : St → Outcome St

module _ (B : Bus) where
  open B use {St}

  unfoldable pub then_read : ℕ → Reply (Unit {0}) × St → Reply (List ℕ) × St
  then_read len (Reply.ok u, s) = B.read address len s
  then_read len (Reply.err e, s) = (Reply.err e, s)

  -- `write` of a command and, unless that fails, `read` of the answer
  unfoldable pub command : List ℕ → ℕ → St → Reply (List ℕ) × St
  unfolding then_read
  command bytes len s = then_read len (B.write address bytes s)

  unfoldable pub is_ready : Reply (List ℕ) → Option (Measured Bool)
  is_ready (Reply.err e) = some (twim e)
  is_ready (Reply.ok buf) = do
    crc ← get_elem? buf 2
    b1 ← get_elem? buf 1
    some (if crc_check (take 2 buf) crc then ok (b1 == 1) else checksum)

  unfoldable pub data_ready : St → Option (Measured Bool × St)
  unfolding command is_ready
  data_ready s = do let (r, s') = command (2 ∷ 2 ∷ []) 3 s; b ← is_ready r; some (b, s')

  unfoldable pub measured : Reply (List ℕ) → Option (Measured Measurement)
  measured (Reply.err e) = some (twim e)
  measured (Reply.ok buf) = do
    fits ← check_chunks buf
    m ← decode buf
    some (if fits then ok m else checksum)

  unfoldable pub conclude : Option (Measured Measurement) → St → Outcome St
  conclude none s = panicked
  conclude (some m) s = answered m s

  -- `get_measurement` from the end of its loop on
  unfoldable pub measure : St → Outcome St
  unfolding command
  measure s = let (r, s') = command (3 ∷ 0 ∷ []) 18 s in conclude (measured r) s'

  pub get_measurement : ℕ → St → Outcome St
  unfolding measure
  get_measurement zero s = waiting s
  get_measurement (suc fuel) s = elim (data_ready s) [
    | none ↦ panicked
    | some (r, s') ↦ elim r [
      | ok b ↦ elim b [ true ↦ measure s' | false ↦ get_measurement fuel s' ]
      | checksum ↦ answered checksum s'
      | twim e ↦ answered (twim e) s'
    ]
  ]
