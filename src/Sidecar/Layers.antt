-- ===== src/Sidecar/Layers.antt =====
-- crates/kaze-sidecar/src/options.rs: the plugins that are added to the options, and the filter that they
-- become.
pub mod Order
pub mod Failure
use kaze.Base.{ℕ, List, [], ◌∷◌, ◌++◌, Outcome, ok, err, panic, ◌>>=◌, Option, none, some}
use kaze.Service.{Serve, filter_chain}

-- A plugin is the filter that it is, with its type.
pub record Plugin (T E : Type 0) : Type 0 where
  pub type_id : ℕ
  pub serve : Serve T E (Option T)

-- A `PluginCreator`: what `config.get::<T>()` finds, and what `build` of it comes to.
abbrev pub Creator : Type 0 → Type 0 → Type 0
Creator T E = Option (Outcome E (Plugin T E))

-- `FilterStart`, or the `FilterLayer` of a filter.
pub data Filters (T E : Type 0) : Type 0 where
  filter_start : Filters T E
  filter_layer : Serve T E (Option T) → Filters T E

-- What goes from layer to layer: the filters and the plugins that the context builder was given.
abbrev pub Chained : Type 0 → Type 0 → Type 0
Chained T E = Outcome E (Filters T E × List (Plugin T E))

-- What comes out of the last one.
abbrev pub Built : Type 0 → Type 0 → Type 0
Built T E = Outcome E (Serve T E (Option T) × List (Plugin T E))

-- The layers of the options.
abbrev pub Layers : Type 0 → Type 0 → Type 0
Layers T E = Chained T E → Built T E

module _ {T E : Type 0} where
  -- `Layer::layer` of `FilterStart` and of a `FilterLayer`.
  unfoldable pub layer : Filters T E → Serve T E (Option T) → Filters T E
  layer filter_start plugin = filter_layer plugin
  layer (filter_layer next) prev = filter_layer (filter_chain (λ e. e) prev next)

  -- `PluginCreator::create_plugin`: the plugin that the configuration has, registered.
  unfoldable pub create_plugin :
      Creator T E → List (Plugin T E) → Outcome E (Plugin T E × List (Plugin T E))
  create_plugin none cb = panic
  create_plugin (some built) cb = built >>= λ plugin. ok (plugin, cb ++ (plugin ∷ []))

  -- `PluginCreator::layer`, which registers the plugin once more.
  unfoldable pub layer_plugin : Creator T E → Chained T E → Chained T E
  layer_plugin creator next = next >>= λ (filters, cb).
      create_plugin creator cb >>= λ (plugin, cb').
      ok (layer filters plugin.serve, cb' ++ (plugin ∷ []))

  unfoldable pub end_filter : Filters T E → Serve T E (Option T)
  end_filter filter_start req = ok (some req)
  end_filter (filter_layer plugin) req = plugin req

  -- `FilterEnd::layer`; without a plugin the filter is `FilterEnd`, which lets everything through.
  unfoldable pub filter_end : Layers T E
  unfolding end_filter
  filter_end next = next >>= λ (filters, cb). ok (end_filter filters, cb)

-- `stack` is the `layer` of tower's `Stack::new` of an inner and an outer layer.
module _ {T E : Type 0} (stack : (Chained T E → Chained T E) → Layers T E → Layers T E) where
  -- `OptionsBuilder::add`, of the layers so far.
  unfoldable pub add : Layers T E → Creator T E → Layers T E
  add layers creator = stack (layer_plugin creator) layers

  unfoldable pub add_all : Layers T E → List (Creator T E) → Layers T E
  add_all layers [] = layers
  add_all layers (creator ∷ creators) = add_all (add layers creator) creators

  -- `OptionsBuilder::new`, the calls of `add`, and the last lines of `into_builder`.
  unfoldable pub into_builder : List (Creator T E) → Built T E
  into_builder creators = add_all filter_end creators (ok (filter_start, []))
