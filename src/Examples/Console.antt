-- ===== src/Examples/Console.antt =====
-- nrf52/examples/9-clock.rs: the commands of the console, and the loop that collects them. A text is
-- the list of its code points. The parsers of `chrono` are parameters.
pub mod Parsing
pub mod Lines
pub mod Report
pub mod Sample
pub mod Session
use async_on_embedded.Prelude.{
  ℕ, zero, suc, ◌+◌, ◌-◌, ◌*◌, ◌/◌, ◌%◌, ◌≤◌, ◌<◌, ◌≡◌, Bool, true, false, ◌&&◌, ◌||◌, not, Option,
  none, some, List, [], ◌∷◌, ◌++◌, length, ltb, leb, ◌==◌, if◌then◌else◌, ◌>>=◌, take, drop,
}
use Prim.Native.Char.{code}
use Prim.Native.String.{String}
use async_on_embedded.Ds3231.{ℤ, pos, negsuc, Chrono}
use async_on_embedded.Examples.Utf8.{from_utf8}

abbrev pub Text : Type 0
Text = List ℕ

abbrev pub codes : String → Text
codes String.[] = []
codes (String.◌∷◌ c s) = code c ∷ codes s

abbrev pub equal : Text → Text → Bool
equal [] [] = true
equal [] (d ∷ ds) = false
equal (c ∷ cs) [] = false
equal (c ∷ cs) (d ∷ ds) = c == d && equal cs ds

-- what stands behind the prefix, if the text starts with it
abbrev pub strip : Text → Text → Option Text
strip [] s = some s
strip (c ∷ cs) [] = none
strip (c ∷ cs) (d ∷ ds) = if c == d then strip cs ds else none

-- the property White_Space
unfoldable pub is_whitespace : ℕ → Bool
is_whitespace c =
    (leb 9 c && leb c 13)
    || c == 32
    || c == 0x85
    || c == 0xa0
    || c == 0x1680
    || (leb 0x2000 c && leb c 0x200a)
    || c == 0x2028
    || c == 0x2029
    || c == 0x202f
    || c == 0x205f
    || c == 0x3000

pub trim_start : Text → Text
trim_start [] = []
trim_start (c ∷ cs) = if is_whitespace c then trim_start cs else c ∷ cs

pub trim_end : Text → Text
trim_end [] = []
trim_end (c ∷ cs) =
    let rest = trim_end cs in
    elim rest [ [] ↦ (if is_whitespace c then [] else c ∷ []) | d ∷ ds ↦ c ∷ d ∷ ds ]

pub trim : Text → Text
trim s = trim_end (trim_start s)

abbrev pub cmd_date : Text
cmd_date = b'd' ∷ b'a' ∷ b't' ∷ b'e' ∷ []

abbrev pub cmd_help : Text
cmd_help = b'h' ∷ b'e' ∷ b'l' ∷ b'p' ∷ []

abbrev pub cmd_sensors : Text
cmd_sensors = b's' ∷ b'e' ∷ b'n' ∷ b's' ∷ b'o' ∷ b'r' ∷ b's' ∷ []

abbrev pub cmd_set_date : Text
cmd_set_date = b's' ∷ b'e' ∷ b't' ∷ 32 ∷ b'd' ∷ b'a' ∷ b't' ∷ b'e' ∷ 32 ∷ []

abbrev pub cmd_set_time : Text
cmd_set_time = b's' ∷ b'e' ∷ b't' ∷ 32 ∷ b't' ∷ b'i' ∷ b'm' ∷ b'e' ∷ 32 ∷ []

pub year_fits : ℤ → Bool
year_fits (pos year) = not (ltb year 2000 || ltb 2199 year)
year_fits (negsuc year) = false

module _ (C : Chrono) where
  open C use {Date, Time}

  pub data Command : Type 0 where
    date help sensors : Command
    set_date : Date → Command
    set_time : Time → Command

  -- `NaiveDate::parse_from_str` with "%Y-%m-%d" and `NaiveTime::parse_from_str` with "%H:%M:%S"
  module _ (parse_date : Text → Option Date) (parse_time : Text → Option Time) where
    date_command : Text → Option Command
    date_command s = do d ← parse_date s; if year_fits (C.year d) then some (set_date d) else none

    time_command : Text → Option Command
    time_command s = do t ← parse_time s; some (set_time t)

    setting : Text → Option Command
    unfolding date_command time_command
    setting s = elim (strip cmd_set_date s) [
      | some rest ↦ date_command rest
      | none ↦ elim (strip cmd_set_time s) [ some rest ↦ time_command rest | none ↦ none ]
    ]

    pub trimmed : Text → Option Command
    unfolding setting
    trimmed s =
        if equal s cmd_date
        then some date
        else if equal s cmd_help
        then some help
        else if equal s cmd_sensors
        then some sensors
        else setting s

    -- `Command::from_str`
    pub from_str : Text → Option Command
    from_str s = trimmed (trim s)

    -- What a byte that is received leads to, besides another byte being awaited.
    pub data Reaction : Type 0 where
      waits : Reaction
      full : Reaction
      answers : Option Command → Reaction

    -- `s.ends_with('\\r')`, with the text before it
    pub before_return : Text → Option Text
    before_return [] = none
    before_return (c ∷ []) = if c == 13 then some [] else none
    before_return (c ∷ d ∷ cs) = do rest ← before_return (d ∷ cs); some (c ∷ rest)

    complete : Option Text → Option (Option Command)
    complete none = none
    complete (some s) = do line ← before_return s; some (from_str line)

    -- The inner loop: `input` before and after, 64 being its capacity.
    pub receive : ℕ → List ℕ → Reaction × List ℕ
    unfolding complete
    receive b input =
        if ltb (length input) 64
        then elim (complete (from_utf8 (input ++ (b ∷ [])))) [
          | some cmd ↦ (answers cmd, [])
          | none ↦ (waits, input ++ (b ∷ []))
        ]
        else (full, [])

    -- the reactions to bytes in a row, and the buffer at the end
    unfoldable pub receive_all : List ℕ → List ℕ → List Reaction × List ℕ
    receive_all [] input = ([], input)
    receive_all (b ∷ bytes) input =
        let (r, input') = receive b input in
        let (rs, last) = receive_all bytes input' in (r ∷ rs, last)
