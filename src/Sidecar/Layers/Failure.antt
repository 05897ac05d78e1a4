-- ===== src/Sidecar/Layers/Failure.antt =====
-- A plugin that is not configured, or that is not built.
use kaze.Base.{◌≡◌, refl, ap, ◌∙◌, List, [], ◌∷◌, ◌++◌, map, ok, err, panic, none, some}
use kaze.Sidecar.Layers.{
  Plugin, Creator, filter_start, Layers, Chained, layer_plugin, create_plugin, filter_end,
  into_builder,
}
use kaze.Sidecar.Layers.Order.{configured, chained, chain_of, add_all-chained}

module _ {T E : Type 0} where
  chained-append :
      (cs ds : List (Creator T E)) (next : Chained T E)
      → chained (cs ++ ds) next ≡ chained cs (chained ds next)
  unfolding chained
  chained-append [] ds next = refl
  chained-append (c ∷ cs) ds next = ap (layer_plugin c) (chained-append cs ds next)

  chained-err : (cs : List (Creator T E)) (e : E) → chained cs (err e) ≡ err e
  unfolding chained layer_plugin
  chained-err [] e = refl
  chained-err (c ∷ cs) e = rw (chained-err cs e) refl

  chained-panic : (cs : List (Creator T E)) → chained cs panic ≡ panic
  unfolding chained layer_plugin
  chained-panic [] = refl
  chained-panic (c ∷ cs) = rw (chained-panic cs) refl

  module _ (stack : (Chained T E → Chained T E) → Layers T E → Layers T E)
      (stack_lem : (inner : Chained T E → Chained T E) (outer : Layers T E) (next : Chained T E)
        → stack inner outer next ≡ outer (inner next)) where
    -- Of the plugins that are not configured or not built, the one added last decides, where a stack
    -- of two layers applies the inner one first: when the creators added after it are configured and
    -- are built, the options fail with its error, or panic when it is not configured, whatever was
    -- added before.
    pub into_builder-fails :
        (cs : List (Creator T E)) (ps : List (Plugin T E)) (e : E)
        → (into_builder stack (cs ++ (some (err e) ∷ map configured ps)) ≡ err e)
          × (into_builder stack (cs ++ (none ∷ map configured ps)) ≡ panic)
    unfolding into_builder filter_end chained layer_plugin create_plugin
    into_builder-fails cs ps e =
        let c = chain_of ps in
        let split = chained-append cs in
        (
          add_all-chained stack stack_lem filter_end (cs ++ (some (err e) ∷ map configured ps))
                (ok (filter_start, []))
              ∙ rw
                  (
                    split (some (err e) ∷ map configured ps) (ok (filter_start, [])),
                    c.chained_lem,
                    chained-err cs e,
                  )
                  refl,
          add_all-chained stack stack_lem filter_end (cs ++ (none ∷ map configured ps))
                (ok (filter_start, []))
              ∙ rw
                  (
                    split (none ∷ map configured ps) (ok (filter_start, [])),
                    c.chained_lem,
                    chained-panic cs,
                  )
                  refl,
        )
