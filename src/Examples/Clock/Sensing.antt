-- ===== src/Examples/Clock/Sensing.antt =====
-- nrf52/examples/9-clock.rs: what the task that reads the sensor does to the rest of the program.
use async_on_embedded.Examples.Console.Session
use async_on_embedded.Examples.Sensor.{as_unsigned, as_i8}
use async_on_embedded.Examples.Clock.{seen}
use async_on_embedded.Scd30.{Outcome, answered, panicked, waiting}
use async_on_embedded.Examples.Clock.{
  asks, measures, failed, Place, Program, concluded, sense, stored, asked,
}
use async_on_embedded.Ds3231.{Chrono}
use async_on_embedded.Prelude.{
  none, ℕ, zero, suc, ◌*◌, ◌≡◌, ◌<◌, refl, ap, ◌∙◌, inl, inr, Bool, true, false, ◌&&◌, Option, some,
  List, [], ◌∷◌, length, get_elem?, arith, ◌>>=◌, Option-cases, get_elem?_in,
}
use async_on_embedded.Bus.{Bus, Reply}
use async_on_embedded.Scd30
use async_on_embedded.Scd30.{
  Measured, Measurement, ok, checksum, twim, Outcome, answered, panicked, waiting, data_ready,
  measure, command, then_read, is_ready, measured, conclude, check_chunks, crc_check, decode,
}

-- What `Twim::read` promises: a read of the sensor that does not fail fills its buffer.
abbrev pub FillsReads : Bus → Type 0
FillsReads B =
    (len : ℕ) (s : B.St) (buf : List ℕ)
    → (B.read Scd30.address len s).0 ≡ Reply.ok buf
    → length buf ≡ len

elem_at : (buf : List ℕ) (i : ℕ) → i < length buf → (b : ℕ) × (get_elem? buf i ≡ some b)
elem_at buf i l = elim (Option-cases (get_elem? buf i)) [
  | inl e ↦ absurd (get_elem?_in buf i l e)
  | inr found ↦ found
]

check_chunks-some :
    (n : ℕ) (buf : List ℕ) → length buf ≡ 3 * n → (b : Bool) × (check_chunks buf ≡ some b)
unfolding check_chunks
check_chunks-some n [] l = (true, refl)
check_chunks-some n (a ∷ []) l = absurd (omega arith)
check_chunks-some n (a ∷ b ∷ []) l = absurd (omega arith)
check_chunks-some zero (a ∷ b ∷ c ∷ rest) l = absurd (omega arith)
check_chunks-some (suc n) (a ∷ b ∷ c ∷ rest) l =
    let (others, e) = check_chunks-some n rest (omega arith) in
    (crc_check (a ∷ b ∷ []) c && others, rw e)

-- A chain of steps each of which answers.
then_some {ℓ κ} :
    {A : Type ℓ} {B : Type κ} {m : Option A} {f : A → Option B}
    → (a : A) × (m ≡ some a)
    → ((a : A) → (b : B) × (f a ≡ some b))
    → (b : B) × ((m >>= f) ≡ some b)
then_some {m} {f} (a, e) h = let (b, e') = h a in (b, ap (λ o. o >>= f) e ∙ e')

decode-some : (buf : List ℕ) → length buf ≡ 18 → (m : Measurement) × (decode buf ≡ some m)
unfolding decode
decode-some buf l =
    let at : (i : ℕ) → i < 18 → (b : ℕ) × (get_elem? buf i ≡ some b) =
      λ i h. elem_at buf i (omega arith) in
    then_some (at 0 (omega arith)) λ b0. then_some (at 1 (omega arith)) λ b1.
      then_some (at 3 (omega arith)) λ b3. then_some (at 4 (omega arith)) λ b4.
        then_some (at 6 (omega arith)) λ b6. then_some (at 7 (omega arith)) λ b7.
          then_some (at 9 (omega arith)) λ b9. then_some (at 10 (omega arith)) λ b10.
            then_some (at 12 (omega arith)) λ b12. then_some (at 13 (omega arith)) λ b13.
              then_some (at 15 (omega arith))
                λ b15. then_some (at 16 (omega arith)) λ b16. (_, refl)

-- The cells that the console reads, once this measurement has been stored in them, if there is one.
abbrev pub cells_of : Option Measurement → Session.Cells → Session.Cells
cells_of none c = c
cells_of (some m) c = record {
  co2 = as_unsigned 65535 m.co2;
  t = as_i8 m.t;
  rh = as_unsigned 255 m.rh;
}

-- the last measurement, if this is the answer to the next read
abbrev pub newer : {S : Type 0} → Outcome S → Option Measurement → Option Measurement
newer (answered (ok m) s) last = some m
newer (answered checksum s) last = last
newer (answered (twim e) s) last = last
newer panicked last = last
newer (waiting s) last = last

-- the last measurement behind a step of the sensor's task
abbrev pub taken : (B : Bus) → Place → B.St → Option Measurement → Option Measurement
taken B asks s last = last
taken B measures s last = newer (measure B s) last
taken B failed s last = last

module _ (B : Bus) (A : FillsReads B) where
  open B use {St}

  then_read-filled :
      (len : ℕ) (r : Reply (Unit {0})) (s : St) (buf : List ℕ)
      → (then_read B len (r, s)).0 ≡ Reply.ok buf
      → length buf ≡ len
  unfolding then_read
  then_read-filled len (Reply.ok u) s buf e = A len s buf e
  then_read-filled len (Reply.err x) s buf e = cc

  command-filled :
      (bytes : List ℕ) (len : ℕ) (s : St) (buf : List ℕ)
      → (command B bytes len s).0 ≡ Reply.ok buf
      → length buf ≡ len
  unfolding command
  command-filled bytes len s buf e =
      let w = B.write Scd30.address bytes s in then_read-filled len w.0 w.1 buf e

  is_ready-some :
      (r : Reply (List ℕ))
      → ((buf : List ℕ) → r ≡ Reply.ok buf → length buf ≡ 3)
      → (b : Measured Bool) × (is_ready B r ≡ some b)
  unfolding is_ready
  is_ready-some (Reply.err e) l = (twim e, refl)
  is_ready-some (Reply.ok buf) l =
      let size = l buf refl in
      then_some (elem_at buf 2 (omega (arith, size)))
        λ crc. then_some (elem_at buf 1 (omega (arith, size))) λ b1. (_, refl)

  measured-some :
      (r : Reply (List ℕ))
      → ((buf : List ℕ) → r ≡ Reply.ok buf → length buf ≡ 18)
      → (m : Measured Measurement) × (measured B r ≡ some m)
  unfolding measured
  measured-some (Reply.err e) l = (twim e, refl)
  measured-some (Reply.ok buf) l =
      let size = l buf refl in
      then_some (check_chunks-some 6 buf (omega (arith, size)))
        λ fits. then_some (decode-some buf size) λ m. (_, refl)

  -- What a step of the sensor's task does to the rest: it writes nothing, leaves the line that is
  -- being typed, and the cells are those of the last measurement.
  pub record Leaves (old last : Option Measurement) (p p' : Program B) : Type 0 where
    pub input : p'.input ≡ p.input
    pub output : p'.output ≡ p.output
    pub cells :
        (c : Session.Cells) → seen p.cells ≡ cells_of old c → seen p'.cells ≡ cells_of last c

  module _ (C : Chrono) where
    stored-Leaves :
        (r : Measured Measurement) (s : St) (old : Option Measurement) (p : Program B)
        → Leaves old (newer (answered r s) old) p (stored C B r s p)
    unfolding stored
    stored-Leaves (ok m) s old p = record { input = refl; output = refl; cells = λ c e. refl }
    stored-Leaves checksum s old p = record { input = refl; output = refl; cells = λ c e. e }
    stored-Leaves (twim x) s old p = record { input = refl; output = refl; cells = λ c e. e }

    asked-Leaves :
        (r : Measured Bool) (s : St) (old : Option Measurement) (p : Program B)
        → Leaves old old p (asked C B r s p)
    unfolding asked
    asked-Leaves (ok true) s old p = record { input = refl; output = refl; cells = λ c e. e }
    asked-Leaves (ok false) s old p = record { input = refl; output = refl; cells = λ c e. e }
    asked-Leaves checksum s old p = stored-Leaves checksum s old p
    asked-Leaves (twim x) s old p = stored-Leaves (twim x) s old p

    measured-answered :
        (s : St) → (r : Measured Measurement) × (s' : St) × (measure B s ≡ answered r s')
    unfolding measure conclude
    measured-answered s =
        let filled = command-filled (3 ∷ 0 ∷ []) 18 s in
        let (r, e) = measured-some (command B (3 ∷ 0 ∷ []) 18 s).0 filled in
        (r, (command B (3 ∷ 0 ∷ []) 18 s).1, rw e)

    -- A step of the sensor's task does not panic.
    pub sense-Leaves :
        (at : Place) (old : Option Measurement) (p : Program B)
        → (p' : Program B) × (sense C B at p ≡ some p') × Leaves old (taken B at p.bus old) p p'
    unfolding sense data_ready concluded
    sense-Leaves failed old p = (p, refl, record { input = refl; output = refl; cells = λ c e. e })
    sense-Leaves asks old p =
        let filled = command-filled (2 ∷ 2 ∷ []) 3 p.bus in
        let (r, e) = is_ready-some (command B (2 ∷ 2 ∷ []) 3 p.bus).0 filled in
        let s = (command B (2 ∷ 2 ∷ []) 3 p.bus).1 in
        (asked C B r s p, rw e, asked-Leaves r s old p)
    sense-Leaves measures old p =
        let (r, s, e) = measured-answered p.bus in
        (stored C B r s p, rw e, rw e (stored-Leaves r s old p))
