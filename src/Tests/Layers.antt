-- ===== src/Tests/Layers.antt =====
-- The options with two plugins: one keeps all messages but 5, the other one adds 1.
use kaze.Base.{
  ℕ, ◌≡◌, ◌+◌, refl, List, [], ◌∷◌, if◌then◌else◌, ◌==◌, Option, none, some, Outcome, ok, err,
  panic, ◌>>=◌,
}
use kaze.Service.{Serve, filter_chain, map_err, rest}
use kaze.Sidecar.Layers.{
  Plugin, Layers, Chained, add_all, add, filter_end, layer_plugin, create_plugin, layer, end_filter,
  into_builder,
}
use kaze.Sidecar.Layers.Order.{configured, through, into_builder-through}
use kaze.Sidecar.Layers.Failure.{into_builder-fails}

abbrev stacked : (Chained ℕ ℕ → Chained ℕ ℕ) → Layers ℕ ℕ → Layers ℕ ℕ
stacked inner outer next = outer (inner next)

abbrev fives : Plugin ℕ ℕ
fives = record { type_id = 1; serve = λ n. if n == 5 then ok (some n) else ok none }

abbrev increment : Plugin ℕ ℕ
increment = record { type_id = 2; serve = λ n. ok (some (n + 1)) }

-- The answer of the filter, when there is one.
abbrev answer : Outcome ℕ (Serve ℕ ℕ (Option ℕ) × List (Plugin ℕ ℕ)) → ℕ → Outcome ℕ (Option ℕ)
answer built n = built >>= λ (f, cb). f n

five_first :
    answer (into_builder stacked (configured fives ∷ configured increment ∷ [])) 5 ≡ ok (some 6)
unfolding into_builder add_all add filter_end layer_plugin create_plugin layer end_filter
    filter_chain map_err rest
five_first = refl

five_last : answer (into_builder stacked (configured increment ∷ configured fives ∷ [])) 5 ≡ ok none
unfolding into_builder add_all add filter_end layer_plugin create_plugin layer end_filter
    filter_chain map_err rest
five_last = refl

into_builder-through_example :
    (f : Serve ℕ ℕ (Option ℕ)) × (into_builder stacked
        (configured fives ∷ configured increment ∷ [])
      ≡ ok (f, increment ∷ increment ∷ fives ∷ fives ∷ []))
    × ((n : ℕ) → f n ≡ through (fives ∷ increment ∷ []) n)
into_builder-through_example =
    into_builder-through stacked (λ inner outer next. refl) (fives ∷ increment ∷ [])

into_builder-fails_example :
    (into_builder stacked (none ∷ some (err 1) ∷ some (err 2) ∷ configured fives ∷ []) ≡ err 2)
    × (into_builder stacked (none ∷ some (err 1) ∷ none ∷ configured fives ∷ []) ≡ panic)
into_builder-fails_example =
    into_builder-fails stacked (λ inner outer next. refl) (none ∷ some (err 1) ∷ []) (fives ∷ []) 2
