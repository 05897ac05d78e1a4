-- ===== src/Resolver/Service/Choice.antt =====
-- `dispatch_random`: which of the visited nodes is chosen.
use kaze.Base.{ℕ, ◌+◌, ◌≡◌, refl, List, [], ◌∷◌, Bool, true, Bool-cases, none, some, ◌⊎◌, inl, inr}
use kaze.Extern.Map.{In}
use kaze.Protocol.Message.{Node}
use kaze.Resolver.Trait.{Visit}
use kaze.Resolver.Service.{node_of, choose}

-- A choice that has been made stays, or is replaced by a later node.
choose-some :
    (draw : ℕ → Bool) (cnt : ℕ) (n : Node) (vs : List Visit)
    → (choose draw cnt (some n) vs ≡ some n)
      ⊎ ((v : Visit) × In v vs × (choose draw cnt (some n) vs ≡ some (node_of v)))
unfolding choose
choose-some draw cnt n [] = inl refl
choose-some draw cnt n (v ∷ vs) = elim (Bool-cases (draw cnt)) [
  | inl t ↦ rw t (elim (choose-some draw (cnt + 1) (node_of v) vs) [
    | inl e ↦ inr (v, inl refl, e)
    | inr (u, k, e) ↦ inr (u, inr k, e)
  ])
  | inr f ↦
      rw f (elim (choose-some draw (cnt + 1) n vs) [
        | inl e ↦ inl e
        | inr (u, k, e) ↦ inr (u, inr k, e)
      ])
]

-- `random_ratio(1, 1)` is always true. So a node is chosen as soon as there is one, and it is one
-- of those visited.
pub choose_lem :
    (draw : ℕ → Bool) (vs : List Visit)
    → draw 1 ≡ true
    → ((vs ≡ []) × (choose draw 1 none vs ≡ none))
      ⊎ ((v : Visit) × In v vs × (choose draw 1 none vs ≡ some (node_of v)))
unfolding choose
choose_lem draw [] h = inl (refl, refl)
choose_lem draw (v ∷ vs) h = rw h (elim (choose-some draw 2 (node_of v) vs) [
  | inl e ↦ inr (v, inl refl, e)
  | inr (u, k, e) ↦ inr (u, inr k, e)
])
