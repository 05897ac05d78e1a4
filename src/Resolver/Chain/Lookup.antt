-- ===== src/Resolver/Chain/Lookup.antt =====
-- Looking up and visiting through a chain of two local resolvers.
use kaze.Base.{ℕ, ◌≡◌, refl, [], ◌∷◌, if◌then◌else◌, ◌==◌, Bool-cases, some, inl, inr}
use kaze.Extern.Map.{MapCrate}
use kaze.Protocol.Message.{SocketAddr}
use kaze.Resolver.Local as Local
use kaze.Resolver.Local.{local}
use kaze.Resolver.Local.Visits.{get-add_node}
use kaze.Resolver.Chain.{State, or_else, add_node, get_node, visit_nodes}

module _ (M : MapCrate ℕ SocketAddr) where
  -- A node that is added to the chain is found through it, at the newest address and whatever
  -- either resolver knew before; every other ident is found as before.
  pub chain_get-add_node :
      (i j : ℕ) (a : SocketAddr) (s : State (local M) (local M))
      → get_node (local M) (local M) j (add_node (local M) (local M) i a s)
        ≡ (if i == j then some a else get_node (local M) (local M) j s)
  unfolding get_node add_node or_else
  chain_get-add_node i j a (s1, s2) = elim (Bool-cases (i == j)) [
    | inl e ↦ rw (get-add_node M i j a s1, e) refl
    | inr ne ↦ rw (get-add_node M i j a s1, get-add_node M i j a s2, ne) refl
  ]

  -- A node that is added through the chain is held by both resolvers, so that a visit by its ident
  -- calls the visitor twice for it.
  pub chain_visits_twice :
      (i : ℕ) (a : SocketAddr) (s : State (local M) (local M))
      → visit_nodes (local M) (local M) (i ∷ []) (add_node (local M) (local M) i a s)
        ≡ (i, a) ∷ (i, a) ∷ []
  unfolding visit_nodes add_node Local.visit_nodes Local.add_node
  chain_visits_twice i a (s1, s2) = rw (M.get-insert_self s1 i a, M.get-insert_self s2 i a) refl
