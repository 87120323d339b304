-- ===== src/Examples/Console/Report.antt =====
-- nrf52/examples/9-clock.rs: the answer to the command `sensors`, and the buffer of 32 bytes that
-- it is written to.
use async_on_embedded.Prelude.{
  ◌∙◌, true, length-append, ℕ, zero, suc, ◌+◌, ◌/◌, ◌%◌, ◌≤◌, ◌<◌, ◌≡◌, Option, none, some, List,
  [], ◌∷◌, ◌++◌, arith, length, ltb, leb, if◌then◌else◌, Bool-cases, inl, inr,
}
use mathlib.Core.List.{append_assoc, append-nil}
use async_on_embedded.Ds3231.{ℤ, pos, negsuc}
use async_on_embedded.Examples.Console.{Text}

-- `Display` of an unsigned integer of at most 16 bits: the fuel is five digits
pub decimal : ℕ → ℕ → Text
decimal zero n = []
decimal (suc digits) n =
    let front = decimal digits (n / 10) in
    if ltb n 10 then (48 + n) ∷ [] else front ++ ((48 + n % 10) ∷ [])

abbrev pub unsigned : ℕ → Text
unsigned n = decimal 5 n

-- `Display` of an `i8`
abbrev pub signed : ℤ → Text
signed (pos n) = unsigned n
signed (negsuc n) = b'-' ∷ unsigned (n + 1)

-- The pieces of "CO2: {}ppm\nT: {}C\nRH: {}%" and the newline of `writeln!`.
pub pieces : ℕ → ℤ → ℕ → List Text
pieces co2 t rh =
    (b'C' ∷ b'O' ∷ b'2' ∷ b':' ∷ 32 ∷ [])
    ∷ unsigned co2
    ∷ (b'p' ∷ b'p' ∷ b'm' ∷ 10 ∷ b'T' ∷ b':' ∷ 32 ∷ [])
    ∷ signed t
    ∷ (b'C' ∷ 10 ∷ b'R' ∷ b'H' ∷ b':' ∷ 32 ∷ [])
    ∷ unsigned rh
    ∷ (b'%' ∷ 10 ∷ [])
    ∷ []

-- `write_str` of each piece: `none` is the error of a piece that does not fit any more.
pub write_all : ℕ → List Text → Text → Option Text
write_all cap [] buf = some buf
write_all cap (p ∷ ps) buf =
    let rest = write_all cap ps (buf ++ p) in if leb (length buf + length p) cap then rest else none

-- The buffer after a `write!` whose error is ignored: it stops at a piece that does not fit.
pub filled : ℕ → List Text → Text → Text
filled cap [] buf = buf
filled cap (p ∷ ps) buf =
    let rest = filled cap ps (buf ++ p) in if leb (length buf + length p) cap then rest else buf

abbrev pub joined : List Text → Text
joined [] = []
joined (p ∷ ps) = p ++ joined ps

length-decimal : (digits n : ℕ) → length (decimal digits n) ≤ digits
unfolding decimal
length-decimal zero n = omega arith
length-decimal (suc digits) n = elim (Bool-cases (ltb n 10)) [
  | inl e ↦ rw e (omega arith)
  | inr e ↦ rw e (
      omega (
        arith,
        length-append (decimal digits (n / 10)) ((48 + n % 10) ∷ []),
        length-decimal digits (n / 10),
      ))
]

-- One digit more for ten times the bound.
length-decimal_step :
    (digits n k : ℕ)
    → 1 ≤ k
    → length (decimal digits (n / 10)) ≤ k
    → length (decimal (suc digits) n) ≤ suc k
unfolding decimal
length-decimal_step digits n k p l = elim (Bool-cases (ltb n 10)) [
  | inl e ↦ rw e (omega arith)
  | inr e ↦ rw e (omega (arith, length-append (decimal digits (n / 10)) ((48 + n % 10) ∷ [])))
]

length-decimal_one : (digits n : ℕ) → n < 10 → length (decimal digits n) ≤ 1
unfolding decimal
length-decimal_one zero n l = omega arith
length-decimal_one (suc digits) n l = ground arith

length-decimal_three : (digits n : ℕ) → n < 1000 → length (decimal digits n) ≤ 3
unfolding decimal
length-decimal_three zero n l = omega arith
length-decimal_three (suc zero) n l = omega (arith, length-decimal (suc zero) n)
length-decimal_three (suc (suc digits)) n l = length-decimal_step (suc digits) n 2 (omega arith) (
    length-decimal_step digits (n / 10) 1 (omega arith)
      (length-decimal_one digits (n / 10 / 10) (omega arith)))

-- an `i8`
abbrev pub IsI8 : ℤ → Type 0
IsI8 (pos n) = n < 128
IsI8 (negsuc n) = n < 128

length-signed : (t : ℤ) → IsI8 t → length (signed t) ≤ 4
length-signed (pos n) h = omega (arith, length-decimal_three 5 n (omega arith))
length-signed (negsuc n) h = omega (arith, length-decimal_three 5 (n + 1) (omega arith))

write_all-joined :
    (cap : ℕ) (ps : List Text) (buf : Text)
    → length buf + length (joined ps) ≤ cap
    → write_all cap ps buf ≡ some (buf ++ joined ps)
unfolding write_all
write_all-joined cap [] buf l = rw append-nil
write_all-joined cap (p ∷ ps) buf l =
    let fits : leb (length buf + length p) cap ≡ true =
      ground (arith, length-append p (joined ps)) in
    rw fits (
      write_all-joined cap ps (buf ++ p)
        (omega (arith, length-append p (joined ps), length-append buf p))
      ∙ rw append_assoc)

pub filled-joined :
    (cap : ℕ) (ps : List Text) (buf : Text)
    → length buf + length (joined ps) ≤ cap
    → filled cap ps buf ≡ buf ++ joined ps
unfolding filled
filled-joined cap [] buf l = rw append-nil
filled-joined cap (p ∷ ps) buf l =
    let fits : leb (length buf + length p) cap ≡ true =
      ground (arith, length-append p (joined ps)) in
    rw fits (
      filled-joined cap ps (buf ++ p)
        (omega (arith, length-append p (joined ps), length-append buf p))
      ∙ rw append_assoc)

-- Whatever `co2`, `t` and `rh` are as a `u16`, an `i8` and a `u8`, the answer to `sensors` fits the
-- empty buffer of 32 bytes: `writeln!` does not fail, and the buffer holds the whole text.
pub sensors_fit :
    (co2 : ℕ) (t : ℤ) (rh : ℕ)
    → co2 < 65536
    → IsI8 t
    → rh < 256
    → (write_all 32 (pieces co2 t rh) [] ≡ some (joined (pieces co2 t rh)))
      × (length (joined (pieces co2 t rh)) ≤ 32)
unfolding pieces
sensors_fit co2 t rh hc ht hr =
    let l : length (joined (pieces co2 t rh)) ≤ 32 = omega (
      arith,
      length-append {0},
      length-decimal 5 co2,
      length-signed t ht,
      length-decimal_three 5 rh (omega arith),
    ) in
    (write_all-joined 32 (pieces co2 t rh) [] (omega (arith, l)), l)
