-- ===== src/Bus/Registers.antt =====
-- A device behind the bus that is a file of registers, as the interface of nrf52/src/ds3231.rs
-- expects it: a write names a register and stores bytes from there on, a write followed by a read
-- names a register and loads bytes from there on.
use async_on_embedded.Bus.{ok, Bus}
use async_on_embedded.Prelude.{ℕ, zero, suc, ◌+◌, ◌≡◌, refl, List, [], ◌∷◌, ◌==◌, if◌then◌else◌}

abbrev pub Registers : Type 0
Registers = ℕ → ℕ

abbrev pub put : ℕ → ℕ → Registers → Registers
put a b r j = if a == j then b else r j

abbrev pub store_all : ℕ → List ℕ → Registers → Registers
store_all a [] r = r
store_all a (b ∷ bytes) r = store_all (a + 1) bytes (put a b r)

abbrev pub load : ℕ → ℕ → Registers → List ℕ
load a zero r = []
load a (suc n) r = r a ∷ load (a + 1) n r

-- The device with this address is a file of registers that nothing else changes meanwhile.
pub record IsRegisters (B : Bus) (address : ℕ) : Type 0 where
  pub registers : B.St → Registers
  pub write-ok : (a : ℕ) (bytes : List ℕ) (s : B.St) → (B.write address (a ∷ bytes) s).0 ≡ ok tt
  pub registers-write :
      (a : ℕ) (bytes : List ℕ) (s : B.St)
      → registers (B.write address (a ∷ bytes) s).1 ≡ store_all a bytes (registers s)
  pub write_then_read-ok :
      (a n : ℕ) (s : B.St)
      → (B.write_then_read address (a ∷ []) n s).0 ≡ ok (load a n (registers s))

-- such a bus, with one device that answers at every address
abbrev pub file_bus : Bus
file_bus = record {
  St = Registers;
  write =
      λ address bytes s. elim bytes [ [] ↦ (ok tt, s) | a ∷ rest ↦ (ok tt, store_all a rest s) ];
  read = λ address n s. (ok (load 0 n s), s);
  write_then_read = λ address bytes n s. elim bytes [
    | [] ↦ (ok (load 0 n s), s)
    | a ∷ rest ↦ (ok (load a n (store_all a rest s)), store_all a rest s)
  ];
}

pub file_bus-IsRegisters : (address : ℕ) → IsRegisters file_bus address
file_bus-IsRegisters address = record {
  registers = λ s. s;
  write-ok = λ a bytes s. refl;
  registers-write = λ a bytes s. refl;
  write_then_read-ok = λ a n s. refl;
}
