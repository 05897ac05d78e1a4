-- ===== src/Config/Merge/Tables.antt =====
-- What stands under each name of a merged table.
use Prim.Native.String.{String}
use text.Mathlib.Text.{◌==◌ as str_eq}
use text.Mathlib.TextEquality.{eq_iff}
use kaze.Base.{
  ◌≡◌, refl, sym, ap, ◌∙◌, subst, List, [], ◌∷◌, ◌++◌, Bool, true, false, if◌then◌else◌, Bool-cases,
  Option-cases, Option, none, some, inl, inr,
}
use kaze.Config.Value.{Value, Table, end, entry, get, remove, insert}
use kaze.Config.Merge.{Merged, ok, err, ◌>>=◌, place, merge_inner, merge_into_table_inner}

-- No name stands twice.
abbrev pub DistinctNames : Table → Type 0
DistinctNames end = Unit
DistinctNames (entry k v t) = (get k t ≡ none) × DistinctNames t

pub get-remove :
    (k j : String) (t : Table) → get j (remove k t) ≡ (if str_eq k j then none else get j t)
unfolding get remove
get-remove k j end = elim (Bool-cases (str_eq k j)) [ inl t ↦ rw t refl | inr f ↦ rw f refl ]
get-remove k j (entry i v t) = elim (Bool-cases (str_eq i k)) [
  | inl same ↦ rw same (gone ((eq_iff i k).0 same) (get-remove k j t))
  | inr f ↦ rw f (kept f (get-remove k j t))
]
  where
    gone :
        i ≡ k
        → get j (remove k t) ≡ (if str_eq k j then none else get j t)
        → get j (remove k t)
          ≡ (if str_eq k j then none else (if str_eq i j then some v else get j t))
    gone same ih = elim (Bool-cases (str_eq k j)) [
      | inl e ↦ rw e (ih ∙ rw e refl)
      | inr f ↦ rw (f, same, f) (ih ∙ rw f refl)
    ]

    kept :
        str_eq i k ≡ false
        → get j (remove k t) ≡ (if str_eq k j then none else get j t)
        → (if str_eq i j then some v else get j (remove k t))
          ≡ (if str_eq k j then none else (if str_eq i j then some v else get j t))
    kept f ih = elim (Bool-cases (str_eq i j)) [ inr g ↦ rw g ih | inl e ↦ rw (e, other e) refl ]
      where
        other : str_eq i j ≡ true → str_eq k j ≡ false
        other e = elim (Bool-cases (str_eq k j)) [
          | inr g ↦ g
          | inl g ↦ cc ((eq_iff i k).1 ((eq_iff i j).0 e ∙ sym ((eq_iff k j).0 g)), f)
        ]

-- What is put over a removed entry is put over the entry.
pub again :
    (b : Bool) (v : Value) (x y : Option Value)
    → x ≡ (if b then none else y)
    → (if b then some v else x) ≡ (if b then some v else y)
again true v x y e = refl
again false v x y e = e

pub get-insert :
    (k j : String) (v : Value) (t : Table)
    → get j (insert k v t) ≡ (if str_eq k j then some v else get j t)
unfolding insert get
get-insert k j v t = elim (Bool-cases (str_eq k j)) [
  | inl e ↦ rw e refl
  | inr f ↦ rw f (get-remove k j t ∙ rw f refl)
]

-- The value under a name in the merged table, from those in the two tables: that of the table that
-- has the name, and where both have it, the two merged, which succeeds.
abbrev pub Under : List String → String → Option Value → Option Value → Option Value → Type 0
Under path k a none c = c ≡ a
Under path k none (some inner) c = c ≡ some inner
Under path k (some existing) (some inner) c =
    (v : Value) × (merge_inner existing inner (path ++ (k ∷ [])) ≡ ok v) × (c ≡ some v)

place_ok :
    (m : Merged Value) (name : String) (t : Table) (rest : Table → Merged Table) (c : Table)
    → (place name t m >>= rest) ≡ ok c
    → (v : Value) × (m ≡ ok v) × (rest (insert name v t) ≡ ok c)
place_ok (ok v) name t rest c h = (v, refl, h)
place_ok (err e) name t rest c h = cc h

-- One round of the loop, which puts `new` under `name`, changes nothing else.
round :
    (path : List String) (k name : String) (value value' t : Table) (new inner : Value)
    (c : Option Value)
    → ((j : String) → get j value' ≡ (if str_eq name j then some new else get j value))
    → get name t ≡ none
    → Under path name (get name value) (some inner) (some new)
    → Under path k (get k value') (get k t) c
    → Under path k (get k value) (if str_eq name k then some inner else get k t) c
round path k name value value' t new inner c put once merged ih =
    elim (Bool-cases (str_eq name k)) [
      | inr f ↦ rw f (subst (λ x. Under path k x (get k t) c) (put k ∙ rw f refl) ih)
      | inl e ↦
          let same = (eq_iff name k).0 e in
          let new_at : c ≡ some new =
            found same (ap (λ n. get n t) (sym same) ∙ once) (put k ∙ rw e refl) in
          rw (e, ← same, new_at) merged
    ]
  where
    found : name ≡ k → get k t ≡ none → get k value' ≡ some new → c ≡ some new
    found same absent here = subst (λ x. Under path k (get k value') x c) absent ih ∙ here

-- In a table that two tables merge to, every name of either stands, and no other: under a name
-- of one of them its value, and under a name of both the two values merged.
pub merge_lookup :
    (value other c : Table) (path : List String) (k : String)
    → DistinctNames other
    → merge_into_table_inner value other path ≡ ok c
    → Under path k (get k value) (get k other) (get k c)
unfolding merge_into_table_inner get
merge_lookup value end c path k d h = ap (get k) (sym (ok_inj h))
  where
    ok_inj : {t u : Table} → Merged.ok t ≡ Merged.ok u → t ≡ u
    ok_inj e = cc
merge_lookup value (entry name inner rest) c path k (once, d) h =
    elim (Option-cases (get name value)) [
      | inl e ↦
          round path k name value (insert name inner value) rest inner inner (get k c)
            (λ j. get-insert name j inner value) once (rw e refl)
            (merge_lookup (insert name inner value) rest c path k d (rw e at h))
      | inr (existing, e) ↦
          let (v, m, h') =
            place_ok (merge_inner existing inner (path ++ (name ∷ []))) name (remove name value)
              (λ t. merge_into_table_inner t rest path) c (rw e at h) in
          round path k name value (insert name v (remove name value)) rest v inner (get k c)
            (λ j.
              get-insert name j v (remove name value)
              ∙ again (str_eq name j) v _ _ (get-remove name j value))
            once (rw e (v, m, refl))
            (merge_lookup (insert name v (remove name value)) rest c path k d h')
    ]
