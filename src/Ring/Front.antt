-- ===== src/Ring/Front.antt =====
-- Where the oldest message of a queue stands, and what is left of the queue without it.
use kaze.Base.{ℕ, ◌+◌, ◌-◌, ◌%◌, ◌^◌, ◌≤◌, ◌<◌, ◌≡◌, ap, ◌∙◌, arith, List, [], ◌∷◌, length, ◌⊎◌}
use kaze.Ring.Memory.{Mem, read_u32}
use kaze.Ring.Queue.{record_at, mark, u32}
use kaze.Ring.Layout.{slot, RecordAt, Lies}
use native.Mathlib.Nat.{mod-eq_of_lt, mod_self, eq-or-lt_of_le}

-- The position behind the record at `pos`, where the queue starts again at its end.
abbrev pub past_record : ℕ → ℕ → List ℕ → ℕ
past_record size pos x = u32 ((pos + slot x) % size)

pub past_record-inside :
    (size pos : ℕ) (x : List ℕ)
    → size < 2 ^ 31
    → pos + slot x < size
    → past_record size pos x ≡ pos + slot x
past_record-inside size pos x small lt = ap u32 (mod-eq_of_lt lt) ∙ mod-eq_of_lt (omega arith)

pub past_record-end : (size pos : ℕ) (x : List ℕ) → pos + slot x ≡ size → past_record size pos x ≡ 0
past_record-end size pos x e = ap (λ n. u32 (n % size)) e ∙ ap u32 (mod_self size)

pub end-cases : (a n : ℕ) → a ≤ n → (a ≡ n) ⊎ (a < n)
end-cases a n h = eq-or-lt_of_le h

-- A record is read where it stands, or past a mark, at the start.
pub record_at-here :
    (m : Mem) (p : ℕ) (x : List ℕ)
    → read_u32 m p ≡ length x
    → length x < 2 ^ 31
    → record_at m p ≡ (p, length x)
unfolding record_at
record_at-here m p x e lt = ground arith

pub record_at-mark :
    (m : Mem) (p : ℕ) (x : List ℕ)
    → read_u32 m p ≡ mark
    → read_u32 m 0 ≡ length x
    → record_at m p ≡ (0, length x)
unfolding record_at
record_at-mark m p x e e' = ground arith

module _ (size used head tail : ℕ) (bytes : Mem) (msgs : List (List ℕ)) where
  pub record Front : Type 0 where
    pub oldest : List ℕ
    pub others : List (List ℕ)
    pub split : msgs ≡ oldest ∷ others
    pub pos : ℕ
    pub record_lem : record_at bytes head ≡ (pos, length oldest)
    pub at_pos : RecordAt bytes pos oldest
    pub inside : pos + slot oldest ≤ size
    pub counted : slot oldest ≤ used
    pub left : Lies size (used - slot oldest) (past_record size pos oldest) tail bytes others

  -- Nothing is used exactly where no message stands.
  abbrev pub FrontOrNone : Type 0
  FrontOrNone = ((used ≡ 0) × (msgs ≡ [])) ⊎ Front
