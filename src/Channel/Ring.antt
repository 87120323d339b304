-- ===== src/Channel/Ring.antt =====
-- async-embedded/src/unsync/channel.rs: the cells between the cursors hold a queue.
use async_on_embedded.Prelude.{
  ℕ, ◌+◌, ◌%◌, ◌≤◌, ◌<◌, ◌≡◌, ◌∙◌, ◌≢◌, Option, some, List, [], ◌∷◌, ◌++◌, arith, length,
}
use async_on_embedded.Channel.{Channel, put}
use async_on_embedded.Runtime.{ntasks}
use async_on_embedded.Slab.{Slab}

module _ {ℓ} {T : Type ℓ} where
  -- The cells from cursor `r` on hold these messages.
  abbrev pub Holds : (ℕ → Option T) → ℕ → List T → Type ℓ
  Holds b r [] = Unit
  Holds b r (x ∷ q) = (b (r % ntasks) ≡ some x) × Holds b (r + 1) q

  put_self : (b : ℕ → Option T) (i j : ℕ) (v : T) → i ≡ j → put b i v j ≡ some v
  put_self b i j v e = ground arith

  put_ne : (b : ℕ → Option T) (i j : ℕ) (v : T) → i ≢ j → put b i v j ≡ b j
  put_ne b i j v n = ground arith

  -- A message that is written behind fewer than eight overwrites none of them.
  pub Holds-put :
      (b : ℕ → Option T) (r n : ℕ) (v : T) (q : List T)
      → n ≡ r + length q
      → length q < ntasks
      → Holds b r q
      → Holds (put b (n % ntasks) v) r (q ++ (v ∷ []))
  Holds-put b r n v [] e l h = (put_self b (n % ntasks) (r % ntasks) v (omega arith), tt)
  Holds-put b r n v (x ∷ q) e l h = (
    put_ne b (n % ntasks) (r % ntasks) v (omega arith) ∙ h.0,
    Holds-put b (r + 1) n v q (omega arith) (omega arith) h.1,
  )

module _ (S : Slab) (T : Type 0) where
  -- The channel holds a queue of at most eight messages.
  pub record IsQueue (c : Channel S T) (q : List T) : Type 0 where
    pub cells : Holds c.buffer c.read q
    pub cursors : c.write ≡ c.read + length q
    pub fits : length q ≤ ntasks
