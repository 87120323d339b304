-- ===== src/Alloc/Tests.antt =====
-- async-embedded/src/alloc.rs: three allocations in 1024 bytes.
use async_on_embedded.Alloc.{Alloc, round_up, alloc, alloc_all}
use async_on_embedded.Alloc.Bump.{IsValid, Room, Tiled, alloc_iff_fits, alloc_all-Tiled}
use async_on_embedded.Prelude.{ℕ, ◌+◌, ◌≡◌, refl, ◌≢◌, ◌↔◌, none, some, List, [], ◌∷◌, arith}

abbrev memory : ℕ
memory = 0x2000_0000

abbrev used : ℕ → Alloc
used pos = record { len = 1024; pos = pos; start = memory }

used-IsValid : IsValid (used 5)
used-IsValid = record { inside = omega arith; small = omega arith }

abbrev requests : List (ℕ × ℕ)
requests = (16, 4) ∷ (3, 1) ∷ (8, 8) ∷ []

abbrev slots : List (ℕ × ℕ)
slots = (memory + 8, 16) ∷ (memory + 24, 3) ∷ (memory + 32, 8) ∷ []

requests-served : alloc_all requests (used 5) ≡ some (slots, used 40)
unfolding alloc_all alloc round_up
requests-served = refl

request-served : alloc 16 4 (used 5) ≡ some (memory + 8, used 24)
unfolding alloc round_up
request-served = refl

alloc_iff_fits_example : (alloc 16 4 (used 5) ≢ none) ↔ Room 16 4 (used 5)
alloc_iff_fits_example =
    alloc_iff_fits 16 4 (used 5) used-IsValid (omega arith) (omega arith) (omega arith)

alloc_all-Tiled_example :
    Tiled (memory + 5) (memory + 40) slots
    × ((used 40).start ≡ (used 5).start)
    × ((used 40).len ≡ (used 5).len)
    × IsValid (used 40)
alloc_all-Tiled_example =
    alloc_all-Tiled requests slots {a = used 5} {b = used 40} used-IsValid (omega arith)
      requests-served
