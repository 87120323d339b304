-- ===== src/Examples/Utf8.antt =====
-- `str::from_utf8` of the standard library, as nrf52/examples/9-clock.rs calls it: the code points
-- of well-formed bytes.
pub mod Ascii
use async_on_embedded.Prelude.{
  ℕ, zero, suc, ◌+◌, ◌*◌, ◌%◌, Bool, true, false, ◌&&◌, ◌||◌, not, Option, none, some, List, [],
  ◌∷◌, length, ltb, leb, ◌==◌, if◌then◌else◌, ◌>>=◌,
}

abbrev between : ℕ → ℕ → ℕ → Bool
between lo hi b = leb lo b && leb b hi

-- a continuation byte
abbrev follows : ℕ → Bool
follows = between 0x80 0xbf

two : ℕ → List ℕ → Option (ℕ × List ℕ)
two a [] = none
two a (b ∷ rest) = if follows b then some (a % 32 * 64 + b % 64, rest) else none

three : ℕ → List ℕ → Option (ℕ × List ℕ)
three a [] = none
three a (b ∷ []) = none
three a (b ∷ c ∷ rest) =
    let second =
      if a == 0xe0
      then between 0xa0 0xbf b
      else (if a == 0xed then between 0x80 0x9f b else follows b) in
    if second && follows c then some ((a % 16 * 64 + b % 64) * 64 + c % 64, rest) else none

four : ℕ → List ℕ → Option (ℕ × List ℕ)
four a [] = none
four a (b ∷ []) = none
four a (b ∷ c ∷ []) = none
four a (b ∷ c ∷ d ∷ rest) =
    let second =
      if a == 0xf0
      then between 0x90 0xbf b
      else (if a == 0xf4 then between 0x80 0x8f b else follows b) in
    if second && follows c && follows d
    then some (((a % 8 * 64 + b % 64) * 64 + c % 64) * 64 + d % 64, rest)
    else none

-- the first code point, and the bytes behind it
next : ℕ → List ℕ → Option (ℕ × List ℕ)
unfolding two three four
next a rest =
    if ltb a 0x80
    then some (a, rest)
    else if between 0xc2 0xdf a
    then two a rest
    else if between 0xe0 0xef a
    then three a rest
    else if between 0xf0 0xf4 a
    then four a rest
    else none

decode : ℕ → List ℕ → Option (List ℕ)
decode zero [] = some []
decode zero (a ∷ rest) = none
decode (suc fuel) [] = some []
decode (suc fuel) (a ∷ rest) = do (c, others) ← next a rest; cs ← decode fuel others; some (c ∷ cs)

pub from_utf8 : List ℕ → Option (List ℕ)
from_utf8 bytes = decode (length bytes) bytes
