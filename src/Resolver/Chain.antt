-- ===== src/Resolver/Chain.antt =====
-- crates/kaze-resolver/src/chain.rs: two resolvers, one after the other.
pub mod Lookup
use kaze.Base.{ℕ, List, ◌++◌, Option, none, some}
use kaze.Protocol.Message.{SocketAddr}
use kaze.Resolver.Trait.{Visit, Resolver}

-- `if let Some(addr) = first { return Some(addr) }`, and else the second.
unfoldable pub or_else : Option SocketAddr → Option SocketAddr → Option SocketAddr
or_else none second = second
or_else (some addr) second = some addr

module _ (R1 R2 : Resolver) where
  abbrev pub State : Type 0
  State = R1.State × R2.State

  unfoldable pub add_node : ℕ → SocketAddr → State → State
  add_node ident addr (s1, s2) = (R1.add_node ident addr s1, R2.add_node ident addr s2)

  unfoldable pub get_node : ℕ → State → Option SocketAddr
  get_node ident (s1, s2) = or_else (R1.get_node ident s1) (R2.get_node ident s2)

  unfoldable pub visit_nodes : List ℕ → State → List Visit
  visit_nodes idents (s1, s2) = R1.visit_nodes idents s1 ++ R2.visit_nodes idents s2

  unfoldable pub visit_masked_nodes : ℕ → ℕ → State → List Visit × State
  visit_masked_nodes ident mask (s1, s2) =
      let (v1, s1') = R1.visit_masked_nodes ident mask s1 in
      let (v2, s2') = R2.visit_masked_nodes ident mask s2 in (v1 ++ v2, (s1', s2'))

  abbrev pub chain : Resolver
  chain = record {
    State = State;
    add_node = add_node;
    get_node = get_node;
    visit_nodes = visit_nodes;
    visit_masked_nodes = visit_masked_nodes;
  }
