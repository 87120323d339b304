-- ===== src/Ds3231/Driver/Clock.antt =====
-- nrf52/src/ds3231.rs: what the methods do to a clock, seen as a file of registers.
use async_on_embedded.Prelude.{
  subst, sym, ℕ, ◌≡◌, refl, ap, ◌∙◌, ◌⊎◌, inl, inr, some, List, [], ◌∷◌, arith, ◌>>=◌,
}
use async_on_embedded.Bus.{Bus, Reply}
use async_on_embedded.Bus.Registers.{IsRegisters, Registers, store_all}
use async_on_embedded.Ds3231.{
  Chrono, ok, invalid_date, seconds, date, time_from_regs, date_from_regs, set_date_bytes,
  set_time_bytes,
}
use async_on_embedded.Ds3231.Registers.{Storable, date_round_trip, time_round_trip}
use async_on_embedded.Ds3231.Driver.{address, get_date, get_time, get_datetime, set_date, set_time}

module _ (C : Chrono) (B : Bus) (R : IsRegisters B address) where
  open C use {Date, Time}
  open B use {St}

  -- the registers hold this date, and this time
  abbrev pub HoldsDate : Date → Registers → Type 0
  HoldsDate d r = date_from_regs C (r 4) (r 5) (r 6) ≡ ok d

  abbrev pub HoldsTime : Time → Registers → Type 0
  HoldsTime t r = time_from_regs C (r 0) (r 1) (r 2) ≡ some t

  -- what a write of these bytes does, once they are known to start with a register's address
  stored :
      (bytes : List ℕ) (a : ℕ) (rest : List ℕ) (s : St)
      → bytes ≡ a ∷ rest
      → ((B.write address bytes s).0 ≡ Reply.ok tt)
        × (R.registers (B.write address bytes s).1 ≡ store_all a rest (R.registers s))
  stored bytes a rest s e = rw e (R.write-ok a rest s, R.registers-write a rest s)

  set_date_stored :
      (d : Date) (bytes : List ℕ) (s : St)
      → set_date_bytes C d ≡ ok bytes
      → (B.write address bytes s).0 ≡ Reply.ok tt
      → set_date C B d s ≡ (ok tt, (B.write address bytes s).1)
  unfolding set_date
  set_date_stored d bytes s e w = rw e (ground (arith, w))

  set_date_refused :
      (d : Date) (s : St) → set_date_bytes C d ≡ invalid_date → set_date C B d s ≡ (invalid_date, s)
  unfolding set_date
  set_date_refused d s e = rw e

  pub set_date_lem :
      (d : Date) (s : St)
      → let (r, s') = set_date C B d s in
        ((r ≡ invalid_date) × (s' ≡ s) × ¬ Storable (C.year d))
        ⊎ (Storable (C.year d)
            × (r ≡ ok tt)
            × HoldsDate d (R.registers s')
            × ((t : Time) → HoldsTime t (R.registers s) → HoldsTime t (R.registers s')))
  set_date_lem d s = elim (date_round_trip C d) [
    | inl (refused, out) ↦
        let e = set_date_refused d s refused in inl (ap (λ r. r.0) e, ap (λ r. r.1) e, out)
    | inr (fits, (r0, r1, r2, bytes, back)) ↦
        let w = stored _ date (r0 ∷ r1 ∷ r2 ∷ []) s refl in
        let e = set_date_stored d _ s bytes w.0 in
        let at = ap (λ r. R.registers r.1) e ∙ w.1 in
        inr (
          fits,
          ap (λ r. r.0) e,
          subst (HoldsDate d) (sym at) back,
          λ t h. subst (HoldsTime t) (sym at) h,
        )
  ]

  pub set_time_lem :
      (t : Time) (s : St)
      → C.nanosecond t ≡ 0
      → let (r, s') = set_time C B t s in
        (r ≡ Reply.ok tt)
        × HoldsTime t (R.registers s')
        × ((d : Date) → HoldsDate d (R.registers s) → HoldsDate d (R.registers s'))
  unfolding set_time
  set_time_lem t s full =
      let (r0, r1, r2, bytes, back) = time_round_trip C t full in
      let w = stored (set_time_bytes C t) seconds (r0 ∷ r1 ∷ r2 ∷ []) s bytes in
      (w.0, subst (HoldsTime t) (sym w.1) back, λ d h. subst (HoldsDate d) (sym w.1) h)

  -- what the three methods that read return from this state on
  pub record Reads (d : Date) (t : Time) (s : St) : Type 0 where
    pub datetime : (get_datetime C B s >>= λ r. some r.0) ≡ some (ok (d, t))
    pub date : (get_date C B s >>= λ r. some r.0) ≡ some (ok d)
    pub time : (get_time C B s >>= λ r. some r.0) ≡ some (Reply.ok t)

  pub reads_lem :
      (d : Date) (t : Time) (s : St)
      → HoldsDate d (R.registers s)
      → HoldsTime t (R.registers s)
      → Reads d t s
  unfolding get_datetime get_date get_time
  reads_lem d t s hd ht = record {
    datetime = rw (R.write_then_read-ok seconds 7 s, ht, hd);
    date = rw (R.write_then_read-ok date 3 s, hd);
    time = rw (R.write_then_read-ok seconds 3 s, ht);
  }

  -- On a clock that is a file of registers which nothing else changes meanwhile: a date of the
  -- years 2000 to 2199 and any time of whole seconds, outside a leap second, that are set, in either order, are what `get_date`, `get_time`
  -- and `get_datetime` return.
  pub set-get_datetime :
      (d : Date) (t : Time) (s : St)
      → Storable (C.year d)
      → C.nanosecond t ≡ 0
      → Reads d t (set_time C B t (set_date C B d s).1).1
        × Reads d t (set_date C B d (set_time C B t s).1).1
  set-get_datetime d t s fits full = elim (set_date_lem d s) [
    | inl (e, same, out) ↦ absurd (out fits)
    | inr (f, e, held, kept) ↦ elim (set_date_lem d (set_time C B t s).1) [
      | inl (e', same, out) ↦ absurd (out fits)
      | inr (f', e', held', kept') ↦
          let a = set_time_lem t (set_date C B d s).1 full in
          let b = set_time_lem t s full in
          (reads_lem d t _ (a.2 d held) a.1, reads_lem d t _ held' (kept' t b.1))
    ]
  ]
