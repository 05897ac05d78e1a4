-- ===== src/Tests/Context.antt =====
-- A context with two plugins, one of which has a storage.
use kaze.Base.{ℕ, ◌≡◌, ◌≢◌, refl, ap, ◌⊎◌, inl, inr, [], ◌∷◌, All, none, some}
use kaze.Context.Components.{Plugin, Storages, register, build}
use kaze.Context.Components.Built.{Given, build-Given}
use kaze.Tests.MapModel.{Entries, maps}

abbrev plain : Plugin
plain = record { type_id = 1; context_storage = none }

abbrev storing : Plugin
storing = record { type_id = 2; context_storage = some 8 }

abbrev plugins : Entries Plugin
plugins = (maps Plugin).insert ((maps Plugin).insert (maps Plugin).empty 1 plain) 2 storing

abbrev unset : Storages ℕ
unset i = none

registered_runs :
    register (maps Plugin) (register (maps Plugin) (maps Plugin).empty plain) storing ≡ plugins
unfolding register
registered_runs = refl

apart :
    (q : Plugin) (i : ℕ)
    → (q ≡ plain) ⊎ ⊥
    → storing.context_storage ≡ some i
    → q.context_storage ≢ some i
apart q i (inl e) here = λ h. cc (ap (λ p. p.context_storage) e, h)
apart q i (inr m) here = absurd m

build-Given_example :
    (after : Storages ℕ) × (build (maps Plugin) 77 unset plugins ≡ some after)
    × All (Given 77 after) (storing ∷ plain ∷ [])
build-Given_example =
    build-Given (maps Plugin) 77 unset plugins (apart, ((λ q i m e. absurd m), tt))
      (λ q i m e. refl)
