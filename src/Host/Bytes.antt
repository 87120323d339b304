-- ===== src/Host/Bytes.antt =====
-- The bytes that the DMA of nrf52/src/twim.rs finds and leaves in memory.
use async_on_embedded.Prelude.{
  ℕ, zero, suc, ◌+◌, ◌<◌, ◌≡◌, refl, ap, ◌∙◌, Bool, false, List, [], ◌∷◌, length, arith, ◌==◌,
  if◌then◌else◌,
}
use async_on_embedded.Bus.Registers.{load}
use async_on_embedded.Twim.Staging.{Memory}
use async_on_embedded.Host.{store}

pub load-eq :
    (n p q : ℕ) (mem mem' : Memory)
    → ((i : ℕ) → i < n → mem (p + i) ≡ mem' (q + i))
    → load p n mem ≡ load q n mem'
load-eq zero p q mem mem' h = refl
load-eq (suc n) p q mem mem' h =
    let first : mem p ≡ mem' q = ap mem (omega arith) ∙ h 0 (omega arith) ∙ ap mem' (omega arith) in
    let rest =
      load-eq n (p + 1) (q + 1) mem mem'
        λ i l. ap mem (omega arith) ∙ h (suc i) (omega arith) ∙ ap mem' (omega arith) in
    ap (λ b. b ∷ load (p + 1) n mem) first ∙ ap (λ bytes. mem' q ∷ bytes) rest

pub load-store :
    (ptr : ℕ) (bytes : List ℕ) (mem : Memory)
    → load ptr (length bytes) (store ptr bytes mem) ≡ bytes
load-store ptr [] mem = refl
load-store ptr (b ∷ bytes) mem =
    let here : store ptr (b ∷ bytes) mem ptr ≡ b = ground arith in
    let later =
      load-eq (length bytes) (ptr + 1) (ptr + 1) (store ptr (b ∷ bytes) mem)
        (store (ptr + 1) bytes mem)
        λ i l.
          let above : (ptr == (ptr + 1 + i)) ≡ false = ground arith in
          ap (λ (t : Bool). if t then b else store (ptr + 1) bytes mem (ptr + 1 + i)) above in
    ap (λ c. c ∷ load (ptr + 1) (length bytes) (store ptr (b ∷ bytes) mem)) here
    ∙ ap (λ rest. b ∷ rest) (later ∙ load-store (ptr + 1) bytes mem)

pub length-load : (n p : ℕ) (mem : Memory) → length (load p n mem) ≡ n
length-load zero p mem = refl
length-load (suc n) p mem = omega (arith, length-load n (p + 1) mem)
