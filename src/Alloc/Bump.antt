-- ===== src/Alloc/Bump.antt =====
-- async-embedded/src/alloc.rs: where the bump allocator places what it is asked for.
use native.Mathlib.Nat.{
  mod-lt, div-add-mod, mul-mod_right, lt_of_mul-lt-mul_left, mul-le-mul_left, add-mod, mod-mod,
  add-zero,
}
use async_on_embedded.Prelude.{
  ℕ, ◌+◌, ◌-◌, ◌*◌, ◌/◌, ◌%◌, ◌≤◌, ◌<◌, ◌≡◌, ◌≢◌, none, some, arith, ◌==◌, List, [], ◌∷◌,
  if◌then◌else◌, ◌↔◌, inl, inr, Bool-cases, ==_iff, sym, subst, Option-cases,
}
use async_on_embedded.Runtime.{usize}
use async_on_embedded.Alloc.{Alloc, round_up, alloc, alloc_all}

sub_rem-eq-mul : (n m : ℕ) → 0 < m → n + m - n % m ≡ m * (n / m + 1)
sub_rem-eq-mul n m h = omega (arith, div-add-mod n m, mod-lt n h)

round_up-eq :
    (n m : ℕ) → 0 < m → n + m < usize → round_up n m ≡ (if n % m == 0 then n else n + m - n % m)
unfolding round_up
round_up-eq n m h b = grind arith

round_up-mod : (n m : ℕ) → 0 < m → n + m < usize → round_up n m % m ≡ 0
round_up-mod n m h b = rw (round_up-eq n m h b) (elim (Bool-cases (n % m == 0)) [
  | inl e ↦ rw e ((==_iff _ _).0 e)
  | inr e ↦ rw (e, sub_rem-eq-mul n m h, mul-mod_right)
])

below_multiple : (n m k : ℕ) → 0 < m → n % m ≢ 0 → n ≤ m * k → m * (n / m + 1) ≤ m * k
below_multiple n m k h r le =
    let less : m * (n / m) < m * k = omega (arith, div-add-mod n m) in
    omega (arith, mul-le-mul_left m (lt_of_mul-lt-mul_left m less))

-- `round_up n m` is the least multiple of `m` that is not below `n`, for a positive `m` and a sum
-- that fits a `usize`; it is less than `n + m`.
round_up_least :
    (n m : ℕ)
    → 0 < m
    → n + m < usize
    → (round_up n m % m ≡ 0)
      × (n ≤ round_up n m)
      × (round_up n m < n + m)
      × ((k : ℕ) → n ≤ m * k → round_up n m ≤ m * k)
round_up_least n m h b = (
  round_up-mod n m h b,
  ground (arith, round_up-eq n m h b, mod-lt n h),
  ground (arith, round_up-eq n m h b),
  λ k le. ground (arith, round_up-eq n m h b, below_multiple n m k h, sub_rem-eq-mul n m h),
)

-- The cursor is inside the memory, and no sum that `alloc` makes wraps.
pub record IsValid (a : Alloc) : Type 0 where
  pub inside : a.pos ≤ a.len
  pub small : a.start + a.len * 3 < usize

add_multiple-mod : (s k m : ℕ) → k % m ≡ 0 → (s + k) % m ≡ s % m
add_multiple-mod s k m e = rw (add-mod s k m, e) (rw add-zero (mod-mod s m))

-- Where an allocation that succeeds puts its slot, and what it leaves.
pub record Placed (size align p : ℕ) (a b : Alloc) : Type 0 where
  pub at : p ≡ a.start + round_up a.pos align
  pub above : a.start + a.pos ≤ p
  pub ends : p + size ≡ b.start + b.pos
  pub below : b.pos < b.len
  pub same_start : b.start ≡ a.start
  pub same_len : b.len ≡ a.len

pub alloc-Placed :
    (size align p : ℕ) {a b : Alloc}
    → IsValid a
    → 0 < align
    → align ≤ a.len
    → size ≤ a.len
    → alloc size align a ≡ some (p, b)
    → Placed size align p a b
unfolding alloc
alloc-Placed size align p {a} {b} v pos al sz e =
    ground (arith, round_up_least a.pos align pos (omega arith))

-- On a valid allocator, for a positive alignment and with neither alignment nor size above the
-- length of the memory: the address of a slot is congruent to the start of the memory modulo the
-- alignment asked for. So a slot is aligned exactly when the memory is.
alloc-mod :
    (size align p : ℕ) {a b : Alloc}
    → IsValid a
    → 0 < align
    → align ≤ a.len
    → size ≤ a.len
    → alloc size align a ≡ some (p, b)
    → p % align ≡ a.start % align
alloc-mod size align p {a} v pos al sz e = rw (alloc-Placed size align p v pos al sz e).at (
    add_multiple-mod a.start (round_up a.pos align) align
      (round_up-mod a.pos align pos (omega arith)))

-- An offset that is a multiple of the alignment, not below the cursor, with room for the slot behind
-- it, the last byte of the memory left out.
abbrev pub Room : ℕ → ℕ → Alloc → Type 0
Room size align a = (k : ℕ) × (a.pos ≤ align * k) × (align * k + size < a.len)

round_up-quotient : (n m : ℕ) → 0 < m → n + m < usize → m * (round_up n m / m) ≡ round_up n m
round_up-quotient n m pos small =
    omega (arith, div-add-mod (round_up n m) m, round_up-mod n m pos small)

alloc-Room :
    (size align : ℕ) (a : Alloc)
    → IsValid a
    → 0 < align
    → align ≤ a.len
    → size ≤ a.len
    → alloc size align a ≢ none
    → Room size align a
unfolding alloc
alloc-Room size align a v pos al sz h =
    let least = round_up_least a.pos align pos (omega arith) in
    let whole = round_up-quotient a.pos align pos (omega arith) in
    let fits : round_up a.pos align + size < a.len = ground (arith, least.0) in
    (round_up a.pos align / align, omega (arith, least.1, whole), omega (arith, fits, whole))

-- On a valid allocator, for a positive alignment and with neither alignment nor size above the
-- length of the memory, an allocation succeeds exactly when there is room: some offset that is a
-- multiple of the alignment and not below the cursor, behind which the slot ends before the last
-- byte of the memory. So nothing is refused that would fit, but for that byte.
pub alloc_iff_fits :
    (size align : ℕ) (a : Alloc)
    → IsValid a
    → 0 < align
    → align ≤ a.len
    → size ≤ a.len
    → (alloc size align a ≢ none) ↔ Room size align a
unfolding alloc
alloc_iff_fits size align a v pos al sz = (
  alloc-Room size align a v pos al sz,
  λ (k, above, fits) e.
      let least = round_up_least a.pos align pos (omega arith) in
      let low = least.3 k above in ground (arith, least.0),
)

-- The requests that the theorems cover: positive alignments, and neither they nor the sizes above
-- the length of the memory.
abbrev pub AllFit : ℕ → List (ℕ × ℕ) → Type 0
AllFit len [] = Unit
AllFit len ((size, align) ∷ requests) =
    (size ≤ len) × (0 < align) × (align ≤ len) × AllFit len requests

-- The slots lie one behind the other between two addresses.
abbrev pub Tiled : ℕ → ℕ → List (ℕ × ℕ) → Type 0
Tiled lo hi [] = lo ≤ hi
Tiled lo hi ((p, size) ∷ slots) = (lo ≤ p) × Tiled (p + size) hi slots

-- From a valid allocator, for positive alignments and with neither alignments nor sizes above the
-- length of the memory: if a sequence of allocations succeeds, their slots lie one behind the
-- other, none overlapping the next, behind everything allocated before and below the new cursor;
-- the memory is the same and the allocator stays valid, so its cursor is inside the memory.
pub alloc_all-Tiled :
    (requests slots : List (ℕ × ℕ)) {a b : Alloc}
    → IsValid a
    → AllFit a.len requests
    → alloc_all requests a ≡ some (slots, b)
    → Tiled (a.start + a.pos) (b.start + b.pos) slots
      × (b.start ≡ a.start)
      × (b.len ≡ a.len)
      × IsValid b
unfolding alloc_all
alloc_all-Tiled [] slots v f e = ground arith
alloc_all-Tiled ((size, align) ∷ requests) slots {a} v f e =
    elim (Option-cases (alloc size align a)) [
      | inl stop ↦ ground arith
      | inr ((p, a'), first) ↦ elim (Option-cases (alloc_all requests a')) [
        | inl stop ↦ ground arith
        | inr ((rest, c), others) ↦
            let here = alloc-Placed size align p v f.1 f.2 f.0 first in
            let v' : IsValid a' = omega (arith, here) in
            let f' : AllFit a'.len requests =
              subst (λ k. AllFit k requests) (sym here.same_len) f.3 in
            ground (arith, alloc_all-Tiled requests rest v' f' others, here)
      ]
    ]
