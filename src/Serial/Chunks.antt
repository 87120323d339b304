-- ===== src/Serial/Chunks.antt =====
-- nrf52/src/serial.rs: how a write is cut up.
use async_on_embedded.Serial.{chunks, all_short, write}
use async_on_embedded.Prelude.{
  length-take_le, ℕ, zero, suc, ◌≤◌, ◌<◌, ◌≡◌, refl, ap, ◌∙◌, ◌↔◌, true, false, none, some, List,
  [], ◌∷◌, ◌++◌, arith, length, take, drop, lt→ltb,
}

-- the slices one after the other
abbrev pub joined : List (List ℕ) → List ℕ
joined [] = []
joined (s ∷ slices) = s ++ joined slices

-- Each slice has at least one byte and fits the buffer.
abbrev pub AllFit : List (List ℕ) → Type 0
AllFit [] = Unit
AllFit (s ∷ slices) = (0 < length s) × (length s ≤ 128) × AllFit slices

take-drop : (n : ℕ) (xs : List ℕ) → take n xs ++ drop n xs ≡ xs
take-drop zero xs = refl
take-drop (suc n) [] = refl
take-drop (suc n) (x ∷ xs) = ap (λ r. x ∷ r) (take-drop n xs)

length-drop_le : (n : ℕ) (xs : List ℕ) → length (drop n xs) ≤ length xs
length-drop_le zero xs = omega arith
length-drop_le (suc n) [] = omega arith
length-drop_le (suc n) (x ∷ xs) = omega (arith, length-drop_le n xs)

pub joined-chunks :
    (fuel : ℕ) (bytes : List ℕ) → length bytes ≤ fuel → joined (chunks fuel bytes) ≡ bytes
unfolding chunks
joined-chunks zero [] l = refl
joined-chunks zero (b ∷ bytes) l = absurd (omega arith)
joined-chunks (suc fuel) [] l = refl
joined-chunks (suc fuel) (b ∷ bytes) l =
    ap (λ r. take 128 (b ∷ bytes) ++ r)
      (joined-chunks fuel (drop 127 bytes) (omega (arith, length-drop_le 127 bytes)))
    ∙ take-drop 128 (b ∷ bytes)

pub chunks-AllFit : (fuel : ℕ) (bytes : List ℕ) → AllFit (chunks fuel bytes)
unfolding chunks
chunks-AllFit zero bytes = tt
chunks-AllFit (suc fuel) [] = tt
chunks-AllFit (suc fuel) (b ∷ bytes) =
    (omega arith, omega (arith, length-take_le 127 bytes), chunks-AllFit fuel (drop 127 bytes))

all_short_lem : (slices : List (List ℕ)) → AllFit slices → all_short slices ≡ some slices
unfolding all_short
all_short_lem [] f = refl
all_short_lem (s ∷ slices) f =
    rw (all_short_lem slices f.2, lt→ltb (length s) 1024 (omega (arith, f.0, f.1)))

-- `write` panics exactly on 1024 or more bytes in RAM, which it hands on as one slice. Bytes
-- elsewhere are handed on as slices that, one after the other, are the bytes, each of 1 to 128.
write_lem :
    (bytes : List ℕ)
    → ((write true bytes ≡ none) ↔ (1024 ≤ length bytes))
      × ((slices : List (List ℕ)) × (write false bytes ≡ some slices)
          × (joined slices ≡ bytes)
          × AllFit slices)
unfolding write all_short
write_lem bytes = (
  (λ e. ground arith, λ l. ground arith),
  (
    chunks (length bytes) bytes,
    all_short_lem _ (chunks-AllFit (length bytes) bytes),
    joined-chunks (length bytes) bytes (omega arith),
    chunks-AllFit (length bytes) bytes,
  ),
)
