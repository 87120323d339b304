-- ===== src/Examples/Utf8/Ascii.antt =====
-- ASCII among the well-formed bytes.
use async_on_embedded.Examples.Utf8.{next, decode, from_utf8}
use async_on_embedded.Prelude.{
  ℕ, zero, suc, ◌<◌, ◌≤◌, ◌≡◌, refl, some, List, [], ◌∷◌, length, arith,
}

abbrev pub IsAscii : List ℕ → Type 0
IsAscii [] = Unit
IsAscii (b ∷ bytes) = (b < 0x80) × IsAscii bytes

decode_ascii :
    (fuel : ℕ) (bytes : List ℕ)
    → length bytes ≤ fuel
    → IsAscii bytes
    → decode fuel bytes ≡ some bytes
unfolding decode next
decode_ascii zero [] l h = refl
decode_ascii zero (b ∷ bytes) l h = absurd (omega arith)
decode_ascii (suc fuel) [] l h = refl
decode_ascii (suc fuel) (b ∷ bytes) l h = ground (arith, decode_ascii fuel bytes)

pub from_utf8_ascii : (bytes : List ℕ) → IsAscii bytes → from_utf8 bytes ≡ some bytes
unfolding from_utf8
from_utf8_ascii bytes h = decode_ascii (length bytes) bytes (omega arith) h
