-- ===== src/Examples/Console/Session/Setting.antt =====
-- nrf52/examples/9-clock.rs: the clock is set, and then shown.
use async_on_embedded.Prelude.{
  ◌%◌, ℕ, ◌≤◌, ◌<◌, ◌≡◌, refl, sym, ap, ◌∙◌, inl, inr, false, Option, some, List, [], ◌∷◌, ◌++◌,
  length, arith, ◌>>=◌, Option-cases, ◌==◌,
}
use mathlib.Core.List.{append-nil}
use async_on_embedded.Bus.{Bus, Reply}
use async_on_embedded.Bus.Registers.{IsRegisters}
use async_on_embedded.Ds3231.{Chrono, ok}
use async_on_embedded.Ds3231.Registers.{Storable}
use async_on_embedded.Ds3231.Driver
use async_on_embedded.Ds3231.Driver.{address}
use async_on_embedded.Ds3231.Driver.Clock.{set_date_lem, set_time_lem, reads_lem}
use async_on_embedded.Examples.Console.{
  Text, Command, date, set_date, set_time, Reaction, answers, from_str, receive_all, cmd_date,
  cmd_set_date, cmd_set_time,
}
use async_on_embedded.Examples.Console.Parsing.{Formats, CanSet, typed, from_str-typed}
use async_on_embedded.Examples.Console.Lines.{
  IsLine, is_line-IsLine, IsLine-append, quiet, ending, line-received,
}
use async_on_embedded.Examples.Console.Report.{filled-joined, joined}
use async_on_embedded.Examples.Console.Session.{
  newline, prompt, Cells, execute, execute_or_not, respond, respond_all, session, date_answer,
  time_answer, date_text,
}

-- a text that fits behind the word of its command on one line
abbrev pub FitsLine : Text → Type 0
FitsLine text = IsLine text × (length text ≤ 54)

module _ (C : Chrono) (B : Bus) (cells : Cells) (show : C.Date → C.Time → List Text)
    (parse_date : Text → Option C.Date) (parse_time : Text → Option C.Time) where
  pub respond_all-quiet :
      (line : List ℕ) (rs : List (Reaction C parse_date parse_time)) (s : B.St)
      → respond_all C B cells show parse_date parse_time
          (quiet C parse_date parse_time line ++ rs)
          s
        ≡ respond_all C B cells show parse_date parse_time rs s
  unfolding respond_all respond
  respond_all-quiet [] rs s = refl
  respond_all-quiet (b ∷ line) rs s =
      elim (Option-cases (respond_all C B cells show parse_date parse_time rs s)) [
        | inl e ↦ rw (respond_all-quiet line rs s, e)
        | inr (r, e) ↦ rw (respond_all-quiet line rs s, e)
      ]

module _ (C : Chrono) (B : Bus) (R : IsRegisters B address) (cells : Cells) where
  open C use {Date, Time}
  open B use {St}

  module _ (show : Date → Time → List Text) (parse_date : Text → Option Date)
      (parse_time : Text → Option Time) (F : Formats C parse_date parse_time) where
    abbrev answers_to : List (Reaction C parse_date parse_time) → St → Option (List Text × St)
    answers_to = respond_all C B cells show parse_date parse_time

    abbrev typed_in : Command C → Text
    typed_in = typed C parse_date parse_time F

    read_back :
        (cmd : Command C)
        → CanSet C cmd
        → from_str C parse_date parse_time (typed_in cmd) ≡ some cmd
    read_back cmd can =
        let e = from_str-typed C parse_date parse_time F cmd [] [] can tt tt in
        ap (from_str C parse_date parse_time) (sym (append-nil (typed_in cmd))) ∙ e

    ending_typed :
        (cmd : Command C)
        → CanSet C cmd
        → length (typed_in cmd) < 64
        → ending C parse_date parse_time (typed_in cmd) ≡ answers (some cmd)
    ending_typed cmd can short =
        let other : (length (typed_in cmd) == 64) ≡ false = ground arith in
        rw (other, read_back cmd can)

    nothing_typed :
        (s : St) → answers_to (receive_all C parse_date parse_time [] []).0 s ≡ some ([], s)
    unfolding receive_all respond_all
    nothing_typed s = refl

    -- One command: what it writes and a prompt, and then what the others write.
    command_typed :
        (cmd : Command C) (rest : List ℕ) (s s' last : St) (out outs : List Text)
        → CanSet C cmd
        → IsLine (typed_in cmd)
        → length (typed_in cmd) < 64
        → execute C B cells show cmd s ≡ some (out, s')
        → answers_to (receive_all C parse_date parse_time rest []).0 s' ≡ some (outs, last)
        → answers_to (receive_all C parse_date parse_time (typed_in cmd ++ (13 ∷ rest)) []).0 s
          ≡ some ((out ++ (prompt ∷ [])) ++ outs, last)
    unfolding respond_all respond execute_or_not
    command_typed cmd rest s s' last out outs can line short e later =
        let received =
          line-received C parse_date parse_time (typed_in cmd) rest 13 line (omega arith)
            (inl refl) in
        ap (λ p. answers_to p.0 s) received
        ∙ respond_all-quiet C B cells show parse_date parse_time (typed_in cmd) _ s
        ∙ rw (ending_typed cmd can short, e, later)

    execute-set_date :
        (d : Date) (s : St)
        → (Driver.set_date C B d s).0 ≡ ok tt
        → execute C B cells show (set_date d) s ≡ some ([], (Driver.set_date C B d s).1)
    unfolding execute date_answer
    execute-set_date d s e = rw e

    execute-set_time :
        (t : Time) (s : St)
        → (Driver.set_time C B t s).0 ≡ Reply.ok tt
        → execute C B cells show (set_time t) s ≡ some ([], (Driver.set_time C B t s).1)
    unfolding execute time_answer
    execute-set_time t s e = rw e

    execute-date :
        (d : Date) (t : Time) (s : St)
        → (Driver.get_datetime C B s >>= λ r. some r.0) ≡ some (ok (d, t))
        → length (joined (show d t ++ (newline ∷ []))) ≤ 32
        → (last : St) × (execute C B cells show date s
            ≡ some (joined (show d t ++ (newline ∷ [])) ∷ [], last))
    unfolding execute date_text
    execute-date d t s e short = elim (Option-cases (Driver.get_datetime C B s)) [
      | inl c ↦ absurd (ground arith)
      | inr ((x, last), c) ↦
          let same : x ≡ ok (d, t) = ground arith in
          (
            last,
            rw (c, same, filled-joined 32 (show d t ++ (newline ∷ [])) [] (omega (arith, short))),
          )
    ]

    -- On a clock that is a file of registers which nothing else changes meanwhile: when the date,
    -- of the years 2000 to 2199, and the time, of whole seconds outside a leap second, are set at the console and then `date` is typed, with
    -- texts for the date and the time that fit a line and are ASCII, and a text for both together
    -- that fits the buffer of 32 bytes, then the console writes its prompt, one more behind each
    -- of the three commands, and between the last two the date and time that were set.
    pub set_then_date :
        (d : Date) (t : Time) (s : St)
        → Storable (C.year d)
        → C.nanosecond t ≡ 0
        → FitsLine (F.format_date d)
        → FitsLine (F.format_time t)
        → length (joined (show d t ++ (newline ∷ []))) ≤ 32
        → (last : St) × (session C B cells show parse_date parse_time
              (typed_in (set_date d)
                ++ (13 ∷ (typed_in (set_time t) ++ (13 ∷ (typed_in date ++ (13 ∷ []))))))
              s
            ≡ some (
              prompt ∷ prompt ∷ prompt ∷ joined (show d t ++ (newline ∷ [])) ∷ prompt ∷ [],
              last,
            ))
    unfolding session
    set_then_date d t s can full fd ft short = elim (set_date_lem C B R d s) [
      | inl (e, same, out) ↦ absurd (out can)
      | inr (fits, done, held, kept) ↦
          let s₁ = (Driver.set_date C B d s).1 in
          let s₂ = (Driver.set_time C B t s₁).1 in
          let (done₂, held₂, kept₂) = set_time_lem C B R t s₁ full in
          let reads = reads_lem C B R d t s₂ (kept₂ d held) held₂ in
          let (last, shown) = execute-date d t s₂ reads.datetime short in
          let third =
            command_typed date [] s₂ last last _ [] tt (is_line-IsLine cmd_date refl) (omega arith)
              shown (nothing_typed last) in
          let whole : C.nanosecond t % 1000000000 ≡ 0 = omega (arith, full) in
          let second =
            command_typed (set_time t) _ s₁ s₂ last [] _ whole
              (IsLine-append cmd_set_time _ (is_line-IsLine cmd_set_time refl) ft.0)
              (omega (arith, ft.1)) (execute-set_time t s₁ done₂) third in
          let first =
            command_typed (set_date d) _ s s₁ last [] _ can
              (IsLine-append cmd_set_date _ (is_line-IsLine cmd_set_date refl) fd.0)
              (omega (arith, fd.1)) (execute-set_date d s done) second in
          (last, rw first)
    ]
