-- ===== src/Context/Components.antt =====
-- crates/kaze-plugin/src/context.rs and src/lib.rs: the plugins of a context, and the storages that they
-- keep it in. A storage is a `OnceLock`, which the clones of a plugin share.
pub mod Built
use kaze.Base.{
  ℕ, ◌≡◌, ◌≢◌, refl, sym, ap, ◌∙◌, arith, List, [], ◌∷◌, map, Bool, true, false, if◌then◌else◌,
  ◌==◌, Bool-cases, Option, none, some, inl, inr,
}
use kaze.Extern.Map.{MapCrate, In}

-- A plugin, with its type and its `context_storage`.
pub record Plugin : Type 0 where
  pub type_id : ℕ
  pub context_storage : Option ℕ

-- What is in the storages.
abbrev pub Storages : Type 0 → Type 0
Storages C = ℕ → Option C

module _ (M : MapCrate ℕ Plugin) where
  -- `ContextBuilder::register`
  unfoldable pub register : M.Map → Plugin → M.Map
  register plugins p = M.insert plugins p.type_id p

  -- `Context::get`
  unfoldable pub get : M.Map → ℕ → Option Plugin
  get plugins type_id = M.get plugins type_id

module _ {C : Type 0} where
  -- `OnceLock::set`; `none` is that it was set before.
  unfoldable pub set_once : Storages C → ℕ → C → Option (Storages C)
  set_once cells i ctx = elim (cells i) [
    | none ↦ some (λ j. if j == i then some ctx else cells j)
    | some old ↦ none
  ]

  -- `Plugin::init`; `none` is its panic.
  unfoldable pub init : C → Storages C → Plugin → Option (Storages C)
  init ctx cells p = elim p.context_storage [ none ↦ some cells | some i ↦ set_once cells i ctx ]

  init_next : (Storages C → Option (Storages C)) → Option (Storages C) → Option (Storages C)
  init_next k none = none
  init_next k (some cells) = k cells

  unfoldable pub init_all : C → Storages C → List Plugin → Option (Storages C)
  unfolding init_next
  init_all ctx cells [] = some cells
  init_all ctx cells (p ∷ ps) = init_next (λ cells'. init_all ctx cells' ps) (init ctx cells p)

  -- `Plugin::context`; `none` is its panic.
  unfoldable pub context : Storages C → Plugin → Option C
  context cells p = elim p.context_storage [ none ↦ none | some i ↦ cells i ]

  -- `ContextBuilder::build`, in the order in which the map has its plugins.
  unfoldable pub build : (M : MapCrate ℕ Plugin) → C → Storages C → M.Map → Option (Storages C)
  build M ctx cells plugins = init_all ctx cells (map (λ e. e.1) (M.iter plugins))
