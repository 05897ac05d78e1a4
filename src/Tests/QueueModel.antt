-- ===== src/Tests/QueueModel.antt =====
-- A delay queue over a list, newest entry first, which shows that the queue's laws can hold. A key
-- is the number of entries before its own; an entry that is gone leaves its place.
use kaze.Base.{
  ℕ, ◌≤◌, ◌≡◌, ◌≢◌, refl, arith, List, [], ◌∷◌, Bool, true, false, if◌then◌else◌, ◌==◌, Bool-cases,
  length, Option, none, some, inl, inr,
}
use kaze.Extern.DelayQueue.{DelayQueueCrate}

abbrev pub Places : Type 0
Places = List (Option ℕ)

abbrev pub value : Places → ℕ → Option ℕ
value [] k = none
value (x ∷ xs) k = let rest = value xs k in if length xs == k then x else rest

abbrev pub clear_place : Places → ℕ → Places
clear_place [] k = []
clear_place (x ∷ xs) k =
    let rest = clear_place xs k in if length xs == k then none ∷ xs else x ∷ rest

abbrev pub all_clear : Places → Bool
all_clear [] = true
all_clear (none ∷ xs) = all_clear xs
all_clear (some v ∷ xs) = false

pub value_none : (q : Places) (k : ℕ) → all_clear q ≡ true → value q k ≡ none
value_none [] k h = refl
value_none (none ∷ xs) k h = ground (arith, value_none xs k h)
value_none (some v ∷ xs) k h = cc

pub value_beyond : (q : Places) (k : ℕ) → length q ≤ k → value q k ≡ none
value_beyond [] k h = refl
value_beyond (x ∷ xs) k h = ground (arith, value_beyond xs k (omega arith))

pub length-clear_place : (q : Places) (k : ℕ) → length (clear_place q k) ≡ length q
length-clear_place [] k = refl
length-clear_place (x ∷ xs) k = ground (arith, length-clear_place xs k)

pub value-clear_place_self : (q : Places) (k : ℕ) → value (clear_place q k) k ≡ none
value-clear_place_self [] k = refl
value-clear_place_self (x ∷ xs) k = elim (Bool-cases (length xs == k)) [
  | inl t ↦ rw (t, t) refl
  | inr f ↦ rw (f, length-clear_place xs k, f) (value-clear_place_self xs k)
]

pub value-clear_place_ne : (q : Places) (j k : ℕ) → j ≢ k → value (clear_place q k) j ≡ value q j
value-clear_place_ne [] j k ne = refl
value-clear_place_ne (x ∷ xs) j k ne = elim (Bool-cases (length xs == k)) [
  | inl t ↦ rw t (ground arith)
  | inr f ↦ rw (f, length-clear_place xs k, value-clear_place_ne xs j k ne) refl
]

pub value_head : (q : Places) (v : ℕ) → value (some v ∷ q) (length q) ≡ some v
value_head q v = ground arith

pub value_other : (q : Places) (v k : ℕ) → k ≢ length q → value (some v ∷ q) k ≡ value q k
value_other q v k ne = ground arith

abbrev pub delay_queue : DelayQueueCrate
delay_queue = record {
  Queue = Places;
  Key = ℕ;
  empty = [];
  is_empty = all_clear;
  value = value;
  insert = λ q v t. (length q, some v ∷ q);
  try_remove = clear_place;
  expire = clear_place;
  value-empty = λ k. refl;
  is_empty_none = value_none;
  insert_fresh = λ q v t. value_beyond q (length q) (omega arith);
  insert_self = λ q v t. value_head q v;
  insert_ne = λ q v t k ne. value_other q v k ne;
  try_remove_self = value-clear_place_self;
  try_remove_ne = value-clear_place_ne;
  expire_self = value-clear_place_self;
  expire_ne = value-clear_place_ne;
}
