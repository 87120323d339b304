-- ===== src/WakerSet/View.antt =====
-- async-embedded/src/unsync/waker_set.rs: the entries of a set as a list, its blocked and its
-- notified operations.
use async_on_embedded.Prelude.{
  inr, inl, ◌<◌, ◌⊎◌, ◌≤◌, ℕ, zero, suc, ◌+◌, ◌≡◌, ◌≢◌, refl, ap, Option, none, some, List, [], ◌∷◌,
  map, length, arith,
}
use async_on_embedded.Slab.{Slab, Entry, key, lookup, erase, insert_at}
use async_on_embedded.Runtime.{World, wake_by_ref, ntasks}
use async_on_embedded.WakerSet.{WakerSet, new}

-- operations that still hold a waker
abbrev pub blocked : List Entry → ℕ
blocked [] = 0
blocked ((k, some p) ∷ es) = suc (blocked es)
blocked ((k, none) ∷ es) = blocked es

-- operations that were woken and have not been polled since
abbrev pub notified : List Entry → ℕ
notified [] = 0
notified ((k, some p) ∷ es) = notified es
notified ((k, none) ∷ es) = suc (notified es)

abbrev pub is_blocked : Option ℕ → ℕ
is_blocked (some p) = 1
is_blocked none = 0

abbrev pub is_notified : Option ℕ → ℕ
is_notified (some p) = 0
is_notified none = 1

-- the waker that is first in the order of iteration
abbrev pub first_blocked : List Entry → Option ℕ
first_blocked [] = none
first_blocked ((k, some p) ∷ es) = some p
first_blocked ((k, none) ∷ es) = first_blocked es

abbrev pub take_first : List Entry → List Entry
take_first [] = []
take_first ((k, some p) ∷ es) = (k, none) ∷ es
take_first ((k, none) ∷ es) = (k, none) ∷ take_first es

abbrev pub wake_opt : Option ℕ → World → World
wake_opt none w = w
wake_opt (some p) w = wake_by_ref p w

pub counts-length : (es : List Entry) → blocked es + notified es ≡ length es
counts-length [] = refl
counts-length ((k, some p) ∷ es) = omega (arith, counts-length es)
counts-length ((k, none) ∷ es) = omega (arith, counts-length es)

pub counts-erase :
    (k : ℕ) (v : Option ℕ) (es : List Entry)
    → lookup k es ≡ some v
    → (blocked es ≡ is_blocked v + blocked (erase k es))
      × (notified es ≡ is_notified v + notified (erase k es))
counts-erase k v [] h = cc
counts-erase k v ((j, some p) ∷ es) h = ground (arith, counts-erase k v es)
counts-erase k v ((j, none) ∷ es) h = ground (arith, counts-erase k v es)

pub counts-insert_at :
    (i k : ℕ) (v : Option ℕ) (es : List Entry)
    → (blocked (insert_at i (k, v) es) ≡ is_blocked v + blocked es)
      × (notified (insert_at i (k, v) es) ≡ is_notified v + notified es)
counts-insert_at zero k (some p) es = omega arith
counts-insert_at zero k none es = omega arith
counts-insert_at (suc i) k (some p) [] = omega arith
counts-insert_at (suc i) k none [] = omega arith
counts-insert_at (suc i) k v ((j, some p) ∷ es) = omega (arith, counts-insert_at i k v es)
counts-insert_at (suc i) k v ((j, none) ∷ es) = omega (arith, counts-insert_at i k v es)

pub lookup-insert_at :
    (i k : ℕ) (v : Option ℕ) (es : List Entry)
    → lookup k es ≡ none
    → lookup k (insert_at i (k, v) es) ≡ some v
lookup-insert_at zero k v es h = ground arith
lookup-insert_at (suc i) k v [] h = ground arith
lookup-insert_at (suc i) k v ((j, u) ∷ es) h = ground (arith, lookup-insert_at i k v es)

pub counts-take_first :
    (es : List Entry)
    → blocked es ≢ 0
    → (suc (blocked (take_first es)) ≡ blocked es) × (notified (take_first es) ≡ suc (notified es))
counts-take_first [] h = absurd (h refl)
counts-take_first ((k, some p) ∷ es) h = omega arith
counts-take_first ((k, none) ∷ es) h = omega (arith, counts-take_first es h)

pub take_first_of_none : (es : List Entry) → blocked es ≡ 0 → take_first es ≡ es
take_first_of_none [] h = refl
take_first_of_none ((k, some p) ∷ es) h = absurd (omega arith)
take_first_of_none ((k, none) ∷ es) h = ap (λ r. (k, none) ∷ r) (take_first_of_none es h)

pub first_blocked-none : (es : List Entry) → first_blocked es ≡ none → blocked es ≡ 0
first_blocked-none [] h = refl
first_blocked-none ((k, some p) ∷ es) h = cc
first_blocked-none ((k, none) ∷ es) h = first_blocked-none es h

pub first_blocked-some : (p : ℕ) (es : List Entry) → first_blocked es ≡ some p → blocked es ≢ 0
first_blocked-some p [] h = cc
first_blocked-some p ((k, some q) ∷ es) h = omega arith
first_blocked-some p ((k, none) ∷ es) h = first_blocked-some p es h

pub keys-take_first : (es : List Entry) → map key (take_first es) ≡ map key es
keys-take_first [] = refl
keys-take_first ((k, some p) ∷ es) = refl
keys-take_first ((k, none) ∷ es) = ap (λ r. k ∷ r) (keys-take_first es)

-- Taking the first waker removes no key.
pub lookup-take_first :
    (k : ℕ) (es : List Entry) → lookup k es ≢ none → lookup k (take_first es) ≢ none
lookup-take_first k [] h = h
lookup-take_first k ((j, some p) ∷ es) h = ground arith
lookup-take_first k ((j, none) ∷ es) h = ground (arith, lookup-take_first k es)

module _ (S : Slab) where
  abbrev pub view : WakerSet S → List Entry
  view s = S.entries s.entries

  -- `notifiable` counts the entries that hold a waker.
  pub record IsValid (s : WakerSet S) : Type 0 where
    pub counted : s.notifiable ≡ blocked (view s)

  pub view-new : view (new S) ≡ []
  unfolding new
  view-new = S.entries-new

  pub new-IsValid : IsValid (new S)
  unfolding new
  new-IsValid = record { counted = rw S.entries-new }

  -- A valid count is far from the ends of a `usize`.
  pub count_small : (s : WakerSet S) → IsValid s → s.notifiable ≤ ntasks
  count_small s v = omega (arith, counts-length (view s), S.length-entries s.entries)

-- the waker of the entry that the iteration meets first
abbrev pub head_waker : List Entry → Option ℕ
head_waker [] = none
head_waker ((k, v) ∷ es) = v

abbrev pub take_head : List Entry → List Entry
take_head [] = []
take_head ((k, v) ∷ es) = (k, none) ∷ es

pub erase-insert_at :
    (i k : ℕ) (v : Option ℕ) (es : List Entry)
    → lookup k es ≡ none
    → erase k (insert_at i (k, v) es) ≡ es
erase-insert_at zero k v es h = ground arith
erase-insert_at (suc i) k v [] h = ground arith
erase-insert_at (suc i) k v ((j, u) ∷ es) h = ground (arith, erase-insert_at i k v es)

pub take_head_awake :
    (es : List Entry) → (blocked (take_head es) ≡ 0) ⊎ (0 < notified (take_head es))
take_head_awake [] = inl refl
take_head_awake ((k, v) ∷ es) = inr (omega arith)
