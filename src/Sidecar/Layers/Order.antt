-- ===== src/Sidecar/Layers/Order.antt =====
-- A message goes through the plugins in the order in which they were added.
use kaze.Base.{
  ◌≡◌, refl, ◌∙◌, List, [], ◌∷◌, ◌++◌, map, Outcome, ok, err, panic, ◌>>=◌, Option, none, some,
}
use kaze.Service.{Serve, filter_chain, map_err, rest}
use kaze.Sidecar.Layers.{
  Plugin, Creator, Filters, filter_start, filter_layer, Layers, Chained, layer, layer_plugin,
  create_plugin, end_filter, filter_end, into_builder, add, add_all,
}

abbrev pub configured : {T E : Type 0} → Plugin T E → Creator T E
configured p = some (ok p)

-- The plugin added last is registered first, and each of them twice.
abbrev pub registered : {T E : Type 0} → List (Plugin T E) → List (Plugin T E)
registered [] = []
registered (p ∷ ps) = (registered ps ++ (p ∷ [])) ++ (p ∷ [])

-- A message goes through the filters in turn, until one keeps it or fails.
abbrev pub passed :
    {T E : Type 0} → (T → Outcome E (Option T)) → Outcome E (Option T) → Outcome E (Option T)
passed k (ok none) = ok none
passed k (ok (some req)) = k req
passed k (err e) = err e
passed k panic = panic

abbrev pub through : {T E : Type 0} → List (Plugin T E) → Serve T E (Option T)
through [] req = ok (some req)
through (p ∷ ps) req = passed (λ req'. through ps req') (p.serve req)

module _ {T E : Type 0} where
  -- Of filters that do what the plugins do in turn, a layer makes filters that do the new plugin first.
  layer-through :
      (ps : List (Plugin T E)) (filters : Filters T E) (p : Plugin T E)
      → ((req : T) → end_filter filters req ≡ through ps req)
      → (req : T) → end_filter (layer filters p.serve) req ≡ through (p ∷ ps) req
  unfolding layer filter_chain map_err rest end_filter
  layer-through ps filter_start p same req = go (p.serve req)
    where
      go : (r : Outcome E (Option T)) → r ≡ passed (λ req'. through ps req') r
      go (ok none) = refl
      go (ok (some m)) = same m
      go (err x) = refl
      go panic = refl
  layer-through ps (filter_layer next) p same req = go (p.serve req)
    where
      go :
          (r : Outcome E (Option T))
          → (map_err (λ e. e) r >>= λ o. rest next o) ≡ passed (λ req'. through ps req') r
      go (ok none) = refl
      go (ok (some m)) = same m
      go (err x) = refl
      go panic = refl

  -- What the layers are applied to, after the creators that were added to them.
  unfoldable pub chained : List (Creator T E) → Chained T E → Chained T E
  chained [] next = next
  chained (c ∷ cs) next = layer_plugin c (chained cs next)

  module _ (ps : List (Plugin T E)) where
    -- The filters do what the plugins do in turn.
    pub record Chain : Type 0 where
      pub filters : Filters T E
      pub chained_lem :
          chained (map configured ps) (ok (filter_start, [])) ≡ ok (filters, registered ps)
      pub through_lem : (req : T) → end_filter filters req ≡ through ps req

  pub chain_of : (ps : List (Plugin T E)) → Chain ps
  unfolding chained layer_plugin create_plugin end_filter
  chain_of [] = record { filters = filter_start; chained_lem = refl; through_lem = λ req. refl }
  chain_of (p ∷ ps) =
      let c = chain_of ps in
      record {
        filters = layer c.filters p.serve;
        chained_lem = rw c.chained_lem refl;
        through_lem = layer-through ps c.filters p c.through_lem;
      }

  module _ (stack : (Chained T E → Chained T E) → Layers T E → Layers T E)
      (stack_lem : (inner : Chained T E → Chained T E) (outer : Layers T E) (next : Chained T E)
        → stack inner outer next ≡ outer (inner next)) where
    pub add_all-chained :
        (layers : Layers T E) (cs : List (Creator T E)) (next : Chained T E)
        → add_all stack layers cs next ≡ layers (chained cs next)
    unfolding add_all add chained
    add_all-chained layers [] next = refl
    add_all-chained layers (c ∷ cs) next =
        add_all-chained (stack (layer_plugin c) layers) cs next
        ∙ stack_lem (layer_plugin c) layers (chained cs next)

    -- When all plugins are configured and are built, and a stack of two layers applies the inner one
    -- first: the options become the filter that hands a message to the plugins in the order in which
    -- they were added, until one keeps it or fails. Each plugin is registered, the one added last
    -- first, and twice.
    pub into_builder-through :
        (ps : List (Plugin T E))
        → (f : Serve T E (Option T)) × (into_builder stack (map configured ps)
            ≡ ok (f, registered ps))
          × ((req : T) → f req ≡ through ps req)
    unfolding into_builder filter_end
    into_builder-through ps =
        let c = chain_of ps in
        (
          end_filter c.filters,
          add_all-chained filter_end (map configured ps) (ok (filter_start, []))
              ∙ rw c.chained_lem refl,
          c.through_lem,
        )
