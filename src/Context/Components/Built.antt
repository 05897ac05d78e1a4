-- ===== src/Context/Components/Built.antt =====
-- After a context is built, its plugins have it.
use kaze.Base.{
  ℕ, ◌≡◌, ◌≢◌, refl, sym, ap, ◌∙◌, arith, List, [], ◌∷◌, map, All, if◌then◌else◌, ◌==◌,
  Option-cases, none, some, ◌⊎◌, inl, inr,
}
use kaze.Extern.Map.{MapCrate, In}
use kaze.Context.Components.{Plugin, Storages, set_once, init, init_next, init_all, context, build}

-- No two plugins share a storage.
abbrev pub Separate : List Plugin → Type 0
Separate [] = Unit
Separate (p ∷ ps) =
    ((q : Plugin) (i : ℕ) → In q ps → p.context_storage ≡ some i → q.context_storage ≢ some i)
    × Separate ps

module _ {C : Type 0} where
  abbrev pub Unset : Storages C → List Plugin → Type 0
  Unset cells ps = (q : Plugin) (i : ℕ) → In q ps → q.context_storage ≡ some i → cells i ≡ none

  -- A plugin with a storage has the context.
  abbrev pub Given : C → Storages C → Plugin → Type 0
  Given ctx cells p = (p.context_storage ≡ none) ⊎ (context cells p ≡ some ctx)

  record Filled (ctx : C) (cells : Storages C) (ps : List Plugin) : Type 0 where
    after : Storages C
    init_all_lem : init_all ctx cells ps ≡ some after
    given : All (Given ctx after) ps
    others : (i : ℕ) → ((q : Plugin) → In q ps → q.context_storage ≢ some i) → after i ≡ cells i

  abbrev with_context : Storages C → ℕ → C → Storages C
  with_context cells i ctx j = if j == i then some ctx else cells j

  at_self : (cells : Storages C) (i : ℕ) (ctx : C) → with_context cells i ctx i ≡ some ctx
  at_self cells i ctx = ground arith

  at_other : (cells : Storages C) (i j : ℕ) (ctx : C) → j ≢ i → with_context cells i ctx j ≡ cells j
  at_other cells i j ctx ne = ground arith

  set_once_unset :
      (cells : Storages C) (i : ℕ) (ctx : C)
      → cells i ≡ none
      → set_once cells i ctx ≡ some (with_context cells i ctx)
  unfolding set_once
  set_once_unset cells i ctx e = rw (set_once, e) refl

  init_unset :
      (ctx : C) (cells : Storages C) (p : Plugin) (i : ℕ)
      → p.context_storage ≡ some i
      → cells i ≡ none
      → init ctx cells p ≡ some (with_context cells i ctx)
  unfolding init
  init_unset ctx cells p i e unset = rw e (set_once_unset cells i ctx unset)

  fill :
      (ctx : C) (cells : Storages C) (ps : List Plugin)
      → Separate ps
      → Unset cells ps
      → Filled ctx cells ps
  unfolding init_all init_next init context
  fill ctx cells [] s u = record {
    after = cells;
    init_all_lem = refl;
    given = tt;
    others = λ i h. refl;
  }
  fill ctx cells (p ∷ ps) (apart, s) u = elim (Option-cases p.context_storage) [
    | inl e ↦
        let f = fill ctx cells ps s (λ q i m. u q i (inr m)) in
        record {
          after = f.after;
          init_all_lem = rw e f.init_all_lem;
          given = (inl e, f.given);
          others = λ i h. f.others i (λ q m. h q (inr m));
        }
    | inr (i, e) ↦
        let f = fill ctx (with_context cells i ctx) ps s (λ q j m h.
          at_other cells i j ctx (λ same. apart q i m e (h ∙ ap (λ k. some k) same))
          ∙ u q j (inr m) h) in
        record {
          after = f.after;
          init_all_lem =
              ap (init_next (λ cells'. init_all ctx cells' ps))
                (init_unset ctx cells p i e (u p i (inl refl) e))
              ∙ f.init_all_lem;
          given = (inr (rw e (f.others i (λ q m. apart q i m e) ∙ at_self cells i ctx)), f.given);
          others = λ k h.
              f.others k (λ q m. h q (inr m))
              ∙ at_other cells i k ctx (λ same. h p (inl refl) (e ∙ ap (λ j. some j) (sym same)));
        }
  ]

  -- When no two of a context's plugins share a storage and their storages are unset, building the context
  -- gives it to each plugin that has a storage.
  pub build-Given :
      (M : MapCrate ℕ Plugin) (ctx : C) (cells : Storages C) (plugins : M.Map)
      → Separate (map (λ e. e.1) (M.iter plugins))
      → Unset cells (map (λ e. e.1) (M.iter plugins))
      → (after : Storages C) × (build M ctx cells plugins ≡ some after)
        × All (Given ctx after) (map (λ e. e.1) (M.iter plugins))
  unfolding build
  build-Given M ctx cells plugins s u =
      let f = fill ctx cells (map (λ e. e.1) (M.iter plugins)) s u in
      (f.after, f.init_all_lem, f.given)
