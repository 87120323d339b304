-- ===== src/Alloc.antt =====
-- async-embedded/src/alloc.rs: the bump allocator over static memory. Addresses, sizes and
-- alignments are 32-bit `usize` values; a type enters by its size and alignment.
pub mod Bump
mod Tests
use async_on_embedded.Prelude.{
  ℕ, ◌+◌, ◌-◌, ◌%◌, Option, none, some, List, [], ◌∷◌, ◌==◌, ltb, if◌then◌else◌, ◌>>=◌,
}
use async_on_embedded.Runtime.{usize}

pub record Alloc : Type 0 where
  pub len : ℕ
  pub pos : ℕ
  pub start : ℕ

pub new : ℕ → ℕ → Alloc
new start len = record { len = len; pos = 0; start = start }

unfoldable pub round_up : ℕ → ℕ → ℕ
round_up n m = let rem = n % m in if rem == 0 then n else ((n + m) % usize + usize - rem) % usize

-- The address of the slot and the new allocator; `none` is the abort on exhaustion.
unfoldable pub alloc : ℕ → ℕ → Alloc → Option (ℕ × Alloc)
alloc size align a =
    let new_pos = round_up a.pos align in
    let end_pos = (new_pos + size) % usize in
    if ltb end_pos a.len
    then some ((a.start + new_pos) % usize, record a { pos = end_pos })
    else none

-- Calls of `alloc_init` in order, each a size and an alignment, with the slot that each got: its
-- address and its size.
pub alloc_all : List (ℕ × ℕ) → Alloc → Option (List (ℕ × ℕ) × Alloc)
alloc_all [] a = some ([], a)
alloc_all ((size, align) ∷ requests) a = do
  (p, b) ← alloc size align a
  (slots, c) ← alloc_all requests b
  some ((p, size) ∷ slots, c)
