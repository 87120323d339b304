-- ===== src/Slab.antt =====
-- The slab of the crate `heapless` (branch `slab`), whose source is not in the repository: what
-- async-embedded/src/unsync/waker_set.rs calls of it, and its documented behaviour. It maps keys
-- to entries; here an entry is an optional waker, and a waker is the address of its `ready` flag.
pub mod Lists
use async_on_embedded.Prelude.{
  ℕ, zero, suc, ◌≤◌, ◌≡◌, ◌↔◌, Option, none, some, List, [], ◌∷◌, map, length, ◌==◌, if◌then◌else◌,
}
use async_on_embedded.Runtime.{ntasks}

abbrev pub Entry : Type 0
Entry = ℕ × Option ℕ

abbrev pub key : Entry → ℕ
key e = e.0

abbrev pub lookup : ℕ → List Entry → Option (Option ℕ)
lookup k [] = none
lookup k ((j, v) ∷ es) = if j == k then some v else lookup k es

abbrev pub erase : ℕ → List Entry → List Entry
erase k [] = []
erase k ((j, v) ∷ es) = if j == k then es else (j, v) ∷ erase k es

-- A new entry stands somewhere in the iteration order.
abbrev pub insert_at : ℕ → Entry → List Entry → List Entry
insert_at zero e es = e ∷ es
insert_at (suc i) e [] = e ∷ []
insert_at (suc i) e (f ∷ es) = f ∷ insert_at i e es

pub record Slab : Type 1 where
  pub Store : Type 0
  pub new : Store
  -- what `iter_mut` walks over, in order
  pub entries : Store → List Entry
  -- the slab when a walk by `iter_mut` has left these entries in it
  pub walked : Store → List Entry → Store
  -- `none`: the slab is full
  pub insert : Option ℕ → Store → Option (ℕ × Store)
  -- the entry that stood at the key; `none`: the panic on a vacant key
  pub remove : ℕ → Store → Option (Option ℕ × Store)
  pub entries-new : entries new ≡ []
  pub length-entries : (s : Store) → length (entries s) ≤ ntasks
  pub entries-walked :
      (s : Store) (es : List Entry) → map key es ≡ map key (entries s) → entries (walked s es) ≡ es
  pub insert_full : (v : Option ℕ) (s : Store) → (insert v s ≡ none) ↔ (length (entries s) ≡ ntasks)
  pub entries-insert :
      (v : Option ℕ) (s : Store) (k : ℕ) (t : Store)
      → insert v s ≡ some (k, t)
      → (lookup k (entries s) ≡ none) × ((i : ℕ) × (entries t ≡ insert_at i (k, v) (entries s)))
  pub remove_vacant : (k : ℕ) (s : Store) → lookup k (entries s) ≡ none → remove k s ≡ none
  pub entries-remove :
      (k : ℕ) (s : Store) (v : Option ℕ)
      → lookup k (entries s) ≡ some v
      → (t : Store) × (remove k s ≡ some (v, t)) × (entries t ≡ erase k (entries s))
