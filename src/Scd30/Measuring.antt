-- ===== src/Scd30/Measuring.antt =====
-- nrf52/src/scd30.rs: when `get_measurement` ends, and with what.
use async_on_embedded.Prelude.{
  ◌==◌, ℕ, zero, suc, ◌+◌, ◌*◌, ◌<◌, ◌≡◌, ◌≢◌, refl, ap, ◌∙◌, inl, inr, true, false, some, List, [],
  ◌∷◌, arith, Option-cases,
}
use async_on_embedded.Bus.{Bus, Reply}
use async_on_embedded.Scd30.{
  from_le_bytes, address, ok, checksum, twim, answered, check_chunks, decode, command, conclude,
  then_read, is_ready, data_ready, measured, measure, get_measurement,
}

-- The interface description of the sensor: three numbers, each of two words in big-endian order,
-- and a checksum behind each word.
abbrev pub word : ℕ → ℕ → ℕ → ℕ → ℕ
word b0 b1 b2 b3 = ((b0 * 256 + b1) * 256 + b2) * 256 + b3

abbrev pub frame : (ℕ → ℕ) → (ℕ → ℕ) → List ℕ
frame b crc =
    b 0
    ∷ b 1
    ∷ crc 0
    ∷ b 2
    ∷ b 3
    ∷ crc 1
    ∷ b 4
    ∷ b 5
    ∷ crc 2
    ∷ b 6
    ∷ b 7
    ∷ crc 3
    ∷ b 8
    ∷ b 9
    ∷ crc 4
    ∷ b 10
    ∷ b 11
    ∷ crc 5
    ∷ []

words : (b0 b1 b2 b3 : ℕ) → from_le_bytes b3 b2 b1 b0 ≡ word b0 b1 b2 b3
words b0 b1 b2 b3 = omega arith

module _ (B : Bus) where
  open B use {St}

  -- One question: the command is accepted, and the sensor answers with a word of two bytes and a
  -- checksum. The interface description has a 1 in the second byte for "ready" and a 0 for "not
  -- ready".
  pub record Says (b : ℕ) (s s' : St) : Type 0 where
    pub high : ℕ
    pub crc : ℕ
    pub between : St
    pub asked : B.write address (2 ∷ 2 ∷ []) s ≡ (Reply.ok tt, between)
    pub said : B.read address 3 between ≡ (Reply.ok (high ∷ b ∷ crc ∷ []), s')

  -- From the first state, the sensor says "not ready" `n` times and then "ready", which leaves the
  -- last state.
  pub data ReadyAfter (last : St) : ℕ → St → Type 0 where
    now : {s : St} → Says 1 s last → ReadyAfter last zero s
    later : {n : ℕ} {s s' : St} → Says 0 s s' → ReadyAfter last n s' → ReadyAfter last (suc n) s

  command_lem :
      (bytes buf : List ℕ) (len : ℕ) (s s' s'' : St)
      → B.write address bytes s ≡ (Reply.ok tt, s')
      → B.read address len s' ≡ (Reply.ok buf, s'')
      → command B bytes len s ≡ (Reply.ok buf, s'')
  unfolding command then_read
  command_lem bytes buf len s s' s'' w r = ap (then_read B len) w ∙ r

  data_ready_lem : (b : ℕ) (s s' : St) → Says b s s' → data_ready B s ≡ some (ok (b == 1), s')
  unfolding data_ready is_ready
  data_ready_lem b s s' a = rw (command_lem _ _ 3 s a.between s' a.asked a.said)

  get_measurement-measure :
      (n fuel : ℕ) (s last : St)
      → ReadyAfter last n s
      → n < fuel
      → get_measurement B fuel s ≡ measure B last
  unfolding get_measurement
  get_measurement-measure n zero s last r l = absurd (omega arith)
  get_measurement-measure zero (suc fuel) s last (now a) l =
      rw (data_ready_lem 1 s last a, get_measurement)
  get_measurement-measure (suc n) (suc fuel) s last (later {s' = s'} a r) l =
      rw (data_ready_lem 0 s s' a, get_measurement)
        (get_measurement-measure n fuel s' last r (omega arith))

  measured-frame :
      (b crc : ℕ → ℕ)
      → measured B (Reply.ok (frame b crc))
        ≡ some (
            ok (record {
              co2 = word (b 0) (b 1) (b 2) (b 3);
              t = word (b 4) (b 5) (b 6) (b 7);
              rh = word (b 8) (b 9) (b 10) (b 11);
            }))
  unfolding measured check_chunks decode
  measured-frame b crc =
      rw
        (
          words (b 0) (b 1) (b 2) (b 3),
          words (b 4) (b 5) (b 6) (b 7),
          words (b 8) (b 9) (b 10) (b 11),
        )
        refl

  measure-frame :
      (b crc : ℕ → ℕ) (s s' s'' : St)
      → B.write address (3 ∷ 0 ∷ []) s ≡ (Reply.ok tt, s')
      → B.read address 18 s' ≡ (Reply.ok (frame b crc), s'')
      → measure B s
        ≡ answered
            (ok (record {
              co2 = word (b 0) (b 1) (b 2) (b 3);
              t = word (b 4) (b 5) (b 6) (b 7);
              rh = word (b 8) (b 9) (b 10) (b 11);
            }))
            s''
  unfolding measure conclude then_read
  measure-frame b crc s s' s'' w r =
      ap (λ p. conclude B (measured B p.0) p.1) (command_lem _ _ 18 s s' s'' w r)
      ∙ ap (λ m. conclude B m s'') (measured-frame b crc)

  -- If the sensor answers the question with the word 0 ("not ready") `n` times and then with the
  -- word 1 ("ready"), and then accepts the command and answers with a frame of 18 bytes, then
  -- `get_measurement` returns the three numbers of the frame, each read in big-endian order,
  -- whatever the checksums are, as soon as the fuel exceeds `n`.
  pub get_measurement_lem :
      (n fuel : ℕ) (b crc : ℕ → ℕ) (s last s' s'' : St)
      → ReadyAfter last n s
      → n < fuel
      → B.write address (3 ∷ 0 ∷ []) last ≡ (Reply.ok tt, s')
      → B.read address 18 s' ≡ (Reply.ok (frame b crc), s'')
      → get_measurement B fuel s
        ≡ answered
            (ok (record {
              co2 = word (b 0) (b 1) (b 2) (b 3);
              t = word (b 4) (b 5) (b 6) (b 7);
              rh = word (b 8) (b 9) (b 10) (b 11);
            }))
            s''
  get_measurement_lem n fuel b crc s last s' s'' r l w e =
      get_measurement-measure n fuel s last r l ∙ measure-frame b crc last s' s'' w e

  check_chunks_true : (bytes : List ℕ) → check_chunks bytes ≢ some false
  unfolding check_chunks
  check_chunks_true [] e = cc
  check_chunks_true (x ∷ []) e = cc
  check_chunks_true (x ∷ y ∷ []) e = cc
  check_chunks_true (x ∷ y ∷ z ∷ rest) e = ground (arith, check_chunks_true rest)

  measured_no_checksum : (r : Reply (List ℕ)) → measured B r ≢ some checksum
  unfolding measured
  measured_no_checksum (Reply.err x) e = cc
  measured_no_checksum (Reply.ok buf) e = elim (Option-cases (check_chunks buf)) [
    | inl c ↦ ground arith
    | inr (false, c) ↦ check_chunks_true buf c
    | inr (true, c) ↦ ground arith
  ]

  is_ready_no_checksum : (r : Reply (List ℕ)) → is_ready B r ≢ some checksum
  unfolding is_ready
  is_ready_no_checksum (Reply.err x) e = cc
  is_ready_no_checksum (Reply.ok buf) e = ground arith

  data_ready_no_checksum : (s s' : St) → data_ready B s ≢ some (checksum, s')
  unfolding data_ready
  data_ready_no_checksum s s' e =
      let r = (command B (2 ∷ 2 ∷ []) 3 s).0 in ground (arith, is_ready_no_checksum r)

  measure_no_checksum : (s s' : St) → measure B s ≢ answered checksum s'
  unfolding measure conclude
  measure_no_checksum s s' e =
      let r = (command B (3 ∷ 0 ∷ []) 18 s).0 in ground (arith, measured_no_checksum r)

  -- Whatever the bus answers, `get_measurement` never returns the checksum error.
  no_checksum_error : (fuel : ℕ) (s s' : St) → get_measurement B fuel s ≢ answered checksum s'
  unfolding get_measurement
  no_checksum_error zero s s' e = cc
  no_checksum_error (suc fuel) s s' e = elim (Option-cases (data_ready B s)) [
    | inl c ↦ ground arith
    | inr ((ok true, t), c) ↦ measure_no_checksum t s' (ground arith)
    | inr ((ok false, t), c) ↦ no_checksum_error fuel t s' (ground arith)
    | inr ((checksum, t), c) ↦ data_ready_no_checksum s t c
    | inr ((twim x, t), c) ↦ ground arith
  ]
