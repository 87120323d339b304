-- ===== src/Slab/Lists.antt =====
-- A slab as a list of at most eight entries: it shows that the behaviour which the waker set relies
-- on can be met, and lets the examples run.
use native.Mathlib.Nat.{le_trans}
use native.Mathlib.Decide.{dec_lt}
use async_on_embedded.Prelude.{
  length-take_le, take, ℕ, zero, suc, ◌+◌, ◌≤◌, ◌≡◌, refl, ap, ◌↔◌, Option, none, some, List, [],
  ◌∷◌, map, arith, length,
}
use async_on_embedded.Slab.{Slab, Entry, key, lookup, erase, insert_at}
use async_on_embedded.Runtime.{ntasks}

abbrev Bounded : Type 0
Bounded = (es : List Entry) × (length es ≤ ntasks)

-- a key above all others
abbrev fresh : List Entry → ℕ
fresh [] = 0
fresh ((k, v) ∷ es) = suc k + fresh es

lookup_above : (k : ℕ) (es : List Entry) → fresh es ≤ k → lookup k es ≡ none
lookup_above k [] h = refl
lookup_above k ((j, v) ∷ es) h = ground (arith, lookup_above k es)

length-keys : (es fs : List Entry) → map key es ≡ map key fs → length es ≡ length fs
length-keys [] [] h = refl
length-keys [] (f ∷ fs) h = cc
length-keys (e ∷ es) [] h = cc
length-keys (e ∷ es) (f ∷ fs) h = ground (arith, length-keys es fs)

take_all : (n : ℕ) (es : List Entry) → length es ≤ n → take n es ≡ es
take_all zero [] h = refl
take_all zero (e ∷ es) h = absurd (omega arith)
take_all (suc n) [] h = refl
take_all (suc n) (e ∷ es) h = ap (λ r. e ∷ r) (take_all n es (omega arith))

pub length-erase : (k : ℕ) (es : List Entry) → length (erase k es) ≤ length es
length-erase k [] = omega arith
length-erase k ((j, v) ∷ es) = ground (arith, length-erase k es)

pub walked_lem : (s : Bounded) (es : List Entry) → map key es ≡ map key s.0 → take ntasks es ≡ es
walked_lem s es e = take_all ntasks es (omega (arith, length-keys es s.0 e, s.1))

abbrev insert_list : Option ℕ → Bounded → Option (ℕ × Bounded)
insert_list v (es, h) = elim (dec_lt (length es) ntasks) [
  | yes l ↦ some (fresh es, ((fresh es, v) ∷ es, l))
  | no l ↦ none
]

abbrev remove_list : ℕ → Bounded → Option (Option ℕ × Bounded)
remove_list k (es, h) = elim (lookup k es) [
  | none ↦ none
  | some v ↦ some (v, (erase k es, le_trans (length-erase k es) h))
]

pub insert_list_full :
    (v : Option ℕ) (s : Bounded) → (insert_list v s ≡ none) ↔ (length s.0 ≡ ntasks)
insert_list_full v (es, h) = (λ e. ground arith, λ e. ground arith)

pub entries-insert_list :
    (v : Option ℕ) (s : Bounded) (k : ℕ) (t : Bounded)
    → insert_list v s ≡ some (k, t)
    → (lookup k s.0 ≡ none) × ((i : ℕ) × (t.0 ≡ insert_at i (k, v) s.0))
entries-insert_list v (es, h) k t e = elim (dec_lt (length es) ntasks) [
  | yes l ↦ (ground (arith, lookup_above (fresh es) es), (0, ground (arith)))
  | no l ↦ absurd (ground arith)
]

pub remove_list_vacant : (k : ℕ) (s : Bounded) → lookup k s.0 ≡ none → remove_list k s ≡ none
remove_list_vacant k (es, h) e = rw (e, remove_list)

pub entries-remove_list :
    (k : ℕ) (s : Bounded) (v : Option ℕ)
    → lookup k s.0 ≡ some v
    → (t : Bounded) × (remove_list k s ≡ some (v, t)) × (t.0 ≡ erase k s.0)
entries-remove_list k (es, h) v e =
    ((erase k es, le_trans (length-erase k es) h), rw (e, remove_list), refl)

abbrev pub list_slab : Slab
list_slab = record {
  Store = Bounded;
  new = ([], omega arith);
  entries = λ s. s.0;
  walked = λ s es. (take ntasks es, length-take_le ntasks es);
  insert = insert_list;
  remove = remove_list;
  entries-new = refl;
  length-entries = λ s. s.1;
  entries-walked = walked_lem;
  insert_full = insert_list_full;
  entries-insert = entries-insert_list;
  remove_vacant = remove_list_vacant;
  entries-remove = entries-remove_list;
}
