-- ===== src/Examples/Console/Lines.antt =====
-- nrf52/examples/9-clock.rs: how received bytes become commands.
use async_on_embedded.Prelude.{
  ◌⊎◌, ℕ, ◌+◌, ◌≤◌, ◌<◌, ◌≡◌, ◌≢◌, refl, inl, inr, Bool, true, false, ltb, not, ◌&&◌, Option, none,
  some, List, [], ◌∷◌, ◌++◌, arith, if◌then◌else◌, length, length-append, lt→ltb, ◌==◌,
}
use mathlib.Core.List.{append_assoc, append-nil}
use native.Mathlib.Decide.{ℕ_discrete}
use async_on_embedded.Ds3231.{Chrono}
use async_on_embedded.Examples.Utf8.Ascii.{IsAscii, from_utf8_ascii}
use async_on_embedded.Examples.Console.{
  Text, Reaction, waits, full, answers, from_str, before_return, complete, receive, receive_all,
}

-- ASCII without a carriage return
abbrev pub IsLine : List ℕ → Type 0
IsLine [] = Unit
IsLine (b ∷ bytes) = (b < 0x80) × (b ≢ 13) × IsLine bytes

pub IsLine-append : (s t : List ℕ) → IsLine s → IsLine t → IsLine (s ++ t)
IsLine-append [] t h a = a
IsLine-append (b ∷ s) t h a = (h.0, h.1, IsLine-append s t h.2 a)

abbrev pub is_line : List ℕ → Bool
is_line [] = true
is_line (b ∷ bytes) = ltb b 0x80 && not (b == 13) && is_line bytes

pub is_line-IsLine : (s : List ℕ) → is_line s ≡ true → IsLine s
is_line-IsLine [] e = tt
is_line-IsLine (b ∷ s) e = (ground arith, λ c. ground arith, is_line-IsLine s (ground arith))

module _ (C : Chrono) (parse_date : Text → Option C.Date) (parse_time : Text → Option C.Time) where
  abbrev returned : Text → Option Text
  returned = before_return C parse_date parse_time

  before_return_line : (s : List ℕ) → IsLine s → returned s ≡ none
  unfolding before_return
  before_return_line [] h = refl
  before_return_line (c ∷ []) h = ground arith
  before_return_line (c ∷ d ∷ s) h = rw (before_return_line (d ∷ s) h.2)

  before_return_end : (s : List ℕ) → returned (s ++ (13 ∷ [])) ≡ some s
  unfolding before_return
  before_return_end [] = refl
  before_return_end (c ∷ []) = refl
  before_return_end (c ∷ d ∷ s) = rw (before_return_end (d ∷ s))

  IsAscii-append : (s t : List ℕ) → IsLine s → IsAscii t → IsAscii (s ++ t)
  IsAscii-append [] t h a = a
  IsAscii-append (b ∷ s) t h a = (h.0, IsAscii-append s t h.2 a)

  IsLine→IsAscii : (s : List ℕ) → IsLine s → IsAscii s
  IsLine→IsAscii [] h = tt
  IsLine→IsAscii (b ∷ s) h = (h.0, IsLine→IsAscii s h.2)

  pub receive_waits :
      (b : ℕ) (input : List ℕ)
      → IsLine (input ++ (b ∷ []))
      → length input < 64
      → receive C parse_date parse_time b input ≡ (waits, input ++ (b ∷ []))
  unfolding receive complete
  receive_waits b input h l =
      rw (lt→ltb _ _ l, from_utf8_ascii _ (IsLine→IsAscii _ h), before_return_line _ h)

  pub receive_return :
      (input : List ℕ)
      → IsLine input
      → length input < 64
      → receive C parse_date parse_time 13 input
        ≡ (answers (from_str C parse_date parse_time input), [])
  unfolding receive complete
  receive_return input h l =
      let ascii = IsAscii-append input (13 ∷ []) h (omega arith, tt) in
      rw (lt→ltb _ _ l, from_utf8_ascii _ ascii, before_return_end input)

  receive_full :
      (b : ℕ) (input : List ℕ)
      → length input ≡ 64
      → receive C parse_date parse_time b input ≡ (full, [])
  unfolding receive
  receive_full b input l = rw l

  abbrev pub quiet : List ℕ → List (Reaction C parse_date parse_time)
  quiet [] = []
  quiet (b ∷ bytes) = waits ∷ quiet bytes

  receive_all_waits :
      (bytes input rest : List ℕ)
      → IsLine input
      → IsLine bytes
      → length input + length bytes ≤ 64
      → let (rs, last) = receive_all C parse_date parse_time rest (input ++ bytes) in
        receive_all C parse_date parse_time (bytes ++ rest) input ≡ (quiet bytes ++ rs, last)
  unfolding receive_all
  receive_all_waits [] input rest hi hb l = rw append-nil
  receive_all_waits (b ∷ bytes) input rest hi hb l =
      let line = IsLine-append input (b ∷ []) hi (hb.0, hb.1, tt) in
      let ih =
        receive_all_waits bytes (input ++ (b ∷ [])) rest line hb.2
          (omega (arith, length-append input (b ∷ []))) in
      rw (receive_waits b input line (omega arith)) (rw ih (rw append_assoc))

  -- what ends the line: the buffer is full, or the line is complete
  abbrev pub ending : List ℕ → Reaction C parse_date parse_time
  ending line = if length line == 64 then full else answers (from_str C parse_date parse_time line)

  receive_ends :
      (line : List ℕ) (b : ℕ)
      → IsLine line
      → length line ≤ 64
      → (b ≡ 13) ⊎ (length line ≡ 64)
      → receive C parse_date parse_time b line ≡ (ending line, [])
  receive_ends line b h l (inr e) = rw e (receive_full b line e)
  receive_ends line b h l (inl e) = elim (ℕ_discrete (length line) 64) [
    | yes f ↦ rw f (receive_full b line f)
    | no n ↦
        let differ : (length line == 64) ≡ false = ground arith in
        rw (differ, e) (receive_return line h (omega arith))
  ]

  -- A line of at most 64 ASCII bytes without a carriage return, received from an empty buffer, and
  -- a byte that ends it, which is a carriage return or, behind 64 bytes, any byte: nothing happens
  -- before that byte. With it the console says that the buffer is full, if the line has 64 bytes,
  -- and otherwise takes the command that the line is; either way it goes on with an empty buffer.
  pub line-received :
      (line rest : List ℕ) (b : ℕ)
      → IsLine line
      → length line ≤ 64
      → (b ≡ 13) ⊎ (length line ≡ 64)
      → let (rs, last) = receive_all C parse_date parse_time rest [] in
        receive_all C parse_date parse_time (line ++ (b ∷ rest)) []
        ≡ (quiet line ++ (ending line ∷ rs), last)
  unfolding receive_all
  line-received line rest b h l e =
      let before = receive_all_waits line [] (b ∷ rest) tt h (omega arith) in
      rw before (rw (receive_ends line b h l e))
