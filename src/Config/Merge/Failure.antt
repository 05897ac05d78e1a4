-- ===== src/Config/Merge/Failure.antt =====
-- When merging two tables fails.
use Prim.Native.String.{String}
use text.Mathlib.Text.{◌==◌ as str_eq}
use text.Mathlib.TextEquality.{eq_iff}
use kaze.Base.{
  ◌≡◌, refl, sym, ◌∙◌, List, [], ◌∷◌, ◌++◌, if◌then◌else◌, Bool-cases, Option-cases, none, some,
  inl, inr, ◌⊎◌, ap,
}
use kaze.Config.Value.{Value, Table, end, entry, get, remove, insert}
use kaze.Config.Merge.{Error, Merged, ok, err, ◌>>=◌, place, merge_inner, merge_into_table_inner}
use kaze.Config.Merge.Tables.{DistinctNames, get-insert, get-remove, again}

-- A name of both tables at which the values do not merge.
abbrev pub ClashAt : List String → Table → Table → Error → String → Type 0
ClashAt path value other e k =
    (existing : Value) × (inner : Value) × (get k value ≡ some existing)
    × (get k other ≡ some inner)
    × (merge_inner existing inner (path ++ (k ∷ [])) ≡ err e)

place_err :
    (m : Merged Value) (name : String) (t : Table) (rest : Table → Merged Table) (e : Error)
    → (place name t m >>= rest) ≡ err e
    → (m ≡ err e) ⊎ ((v : Value) × (rest (insert name v t) ≡ err e))
place_err (ok v) name t rest e h = inr (v, h)
place_err (err x) name t rest e h = inl (same h)
  where
    same : ◌≡◌ {A = Merged Table} (err x) (err e) → ◌≡◌ {A = Merged Value} (err x) (err e)
    same h = cc

-- A clash after a round of the loop, which changed only the value under `name`, was there before.
clash_before :
    (path : List String) (name k : String) (value value' t : Table) (new inner : Value) (e : Error)
    → ((j : String) → get j value' ≡ (if str_eq name j then some new else get j value))
    → get name t ≡ none
    → ClashAt path value' t e k
    → ClashAt path value (entry name inner t) e k
unfolding get
clash_before path name k value value' t new inner e put once (existing, above, g, g', m) =
    elim (Bool-cases (str_eq name k)) [
      | inl same ↦ cc (ap (λ n. get n t) ((eq_iff name k).0 same), once, g')
      | inr f ↦ (existing, above, sym (put k ∙ rw f refl) ∙ g, rw f g', m)
    ]

-- Merging two tables fails only at a name of both under which the two values do not merge, and
-- with the error of merging these two.
pub merge_clash :
    (value other : Table) (path : List String) (e : Error)
    → DistinctNames other
    → merge_into_table_inner value other path ≡ err e
    → (k : String) × ClashAt path value other e k
unfolding merge_into_table_inner get
merge_clash value end path e d h = cc h
merge_clash value (entry name inner rest) path e (once, d) h =
    elim (Option-cases (get name value)) [
      | inl gone ↦
          let (k, clash) = merge_clash (insert name inner value) rest path e d (rw gone at h) in
          (
            k,
            clash_before path name k value (insert name inner value) rest inner inner e
                (λ j. get-insert name j inner value) once clash,
          )
      | inr (existing, there) ↦
          elim (place_err (merge_inner existing inner (path ++ (name ∷ []))) name
            (remove name value) (λ t. merge_into_table_inner t rest path) e (rw there at h)) [
              | inl m ↦ (name, (existing, inner, there, rw ((eq_iff name name).1 refl) refl, m))
              | inr (v, h') ↦
                  let (k, clash) =
                    merge_clash (insert name v (remove name value)) rest path e d h' in
                  (
                    k,
                    clash_before path name k value (insert name v (remove name value)) rest v inner
                        e
                        (λ j.
                          get-insert name j v (remove name value)
                          ∙ again (str_eq name j) v _ _ (get-remove name j value))
                        once clash,
                  )
            ]
    ]
