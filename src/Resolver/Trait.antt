-- ===== src/Resolver/Trait.antt =====
-- crates/kaze-resolver/src/resolver.rs: what every resolver offers.
use kaze.Base.{ℕ, List, Option}
use kaze.Protocol.Message.{SocketAddr}

-- One call of the visitor `f(ident, addr)`.
abbrev pub Visit : Type 0
Visit = ℕ × SocketAddr

-- A visiting method is the list of the calls of its visitor, in order. `visit_masked_nodes` also
-- returns the state, for a resolver that keeps what it found.
pub record Resolver : Type 1 where
  pub State : Type 0
  pub add_node : ℕ → SocketAddr → State → State
  pub get_node : ℕ → State → Option SocketAddr
  pub visit_nodes : List ℕ → State → List Visit
  pub visit_masked_nodes : ℕ → ℕ → State → List Visit × State
