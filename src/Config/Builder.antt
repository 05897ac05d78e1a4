-- ===== src/Config/Builder.antt =====
-- crates/kaze-plugin/src/config_map/mod.rs: from a file's content and the command line to the map of the
-- configurations by their types.
pub mod Found
use Prim.Native.String.{String}
use kaze.Base.{ℕ, List, [], ◌∷◌, ◌++◌, Option, none, some, Outcome, ok, err, panic, ◌>>=◌}
use kaze.Extern.Map.{MapCrate}
use kaze.Config.Value.{Value, table, Table}
use kaze.Config.Value as Values

-- A `MergerImpl<T>`, with what serde and clap derive for its type: reading it from a file, its default, and
-- updating it from the matches of the command line, which takes its arguments out of them.
pub record Merger (V Matches E Item : Type 0) : Type 0 where
  pub name : String
  pub type_id : ℕ
  pub deserialize : Value → Outcome E V
  pub default_config : V
  pub update_from_arg_matches_mut : V → Matches → Outcome E V × Matches
  pub as_toml : V → Item

-- `toml_edit::Table`
pub record TomlTable (Item : Type 0) : Type 1 where
  pub Doc : Type 0
  pub empty : Doc
  pub insert : Doc → String → Item → Doc

-- `toml::Value::get` of a name
unfoldable pub get : Value → String → Option Value
get (table t) k = Values.get k t
get _ k = none

or_else : {V : Type 0} → V → Option V → V
or_else d none = d
or_else d (some v) = v

module _ {V Item : Type 0} (M : MapCrate ℕ V) (D : TomlTable Item) where
  -- `ConfigMap`, and the `ConfigBuilder` without its command.
  pub record ConfigMap : Type 0 where
    pub map : M.Map
    pub table : D.Doc

  -- `ConfigMap::insert` and `ConfigMap::get`, of a type.
  unfoldable pub insert : ConfigMap → ℕ → V → ConfigMap
  insert c type_id v = record c { map = M.insert c.map type_id v }

  unfoldable pub get_config : ConfigMap → ℕ → Option V
  get_config c type_id = M.get c.map type_id

-- `ConfigBuilder::add`, of the mergers so far.
unfoldable pub add :
    {V Matches E Item : Type 0}
    → List (Merger V Matches E Item)
    → Merger V Matches E Item
    → List (Merger V Matches E Item)
add mergers merger = mergers ++ (merger ∷ [])

module _ {V Matches E Item : Type 0} (M : MapCrate ℕ V) (D : TomlTable Item) where
  -- The value in the file, or else the one in the map, which is taken out of it, or else the default.
  config_of : Merger V Matches E Item → Value → M.Map → Option Value → Outcome E (V × M.Map)
  config_of m content map (some t) = m.deserialize t >>= λ v. ok (v, map)
  config_of m content map none =
      ok (or_else m.default_config (M.get map m.type_id), M.remove map m.type_id)

  updated :
      Merger V Matches E Item
      → D.Doc
      → M.Map
      → Outcome E V × Matches
      → Outcome E (ConfigMap M D × Matches)
  updated m doc map (r, matches) = r >>= λ v. ok (
    record { map = M.insert map m.type_id v; table = D.insert doc m.name (m.as_toml v) },
    matches,
  )

  -- `MergerImpl::merge`
  unfoldable pub merge :
      Merger V Matches E Item
      → Value
      → Matches
      → ConfigMap M D
      → Outcome E (ConfigMap M D × Matches)
  unfolding config_of updated or_else
  merge m content matches c = config_of m content c.map (get content m.name) >>= λ (v, map).
      updated m c.table map (m.update_from_arg_matches_mut v matches)

  unfoldable pub merge_all :
      List (Merger V Matches E Item)
      → Value
      → Matches
      → ConfigMap M D
      → Outcome E (ConfigMap M D × Matches)
  merge_all [] content matches c = ok (c, matches)
  merge_all (m ∷ ms) content matches c =
      merge m content matches c >>= λ (c', matches'). merge_all ms content matches' c'

  -- `ConfigBuilder::build`
  unfoldable pub build :
      List (Merger V Matches E Item) → Matches → Value → Outcome E (ConfigMap M D × Matches)
  build mergers matches content =
      merge_all mergers content matches (record { map = M.empty; table = D.empty })
