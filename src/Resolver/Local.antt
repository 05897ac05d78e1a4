-- ===== src/Resolver/Local.antt =====
-- crates/kaze-resolver/src/local.rs: a resolver over one map.
pub mod Visits
use Prim.Native.Nat.{bit_and}
use kaze.Base.{ℕ, List, [], ◌∷◌, Bool, if◌then◌else◌, ◌==◌, Option, none, some}
use kaze.Extern.Map.{MapCrate}
use kaze.Protocol.Message.{SocketAddr}
use kaze.Resolver.Trait.{Visit, Resolver}

-- The `filter` over the map's entries: `e & mask == ident` is `(e & mask) == ident` in Rust.
unfoldable pub matching : ℕ → ℕ → List Visit → List Visit
matching ident mask [] = []
matching ident mask ((e, addr) ∷ xs) =
    let rest = matching ident mask xs in if bit_and e mask == ident then (e, addr) ∷ rest else rest

unfoldable pub visit : ℕ → Option SocketAddr → List Visit → List Visit
visit ident none rest = rest
visit ident (some addr) rest = (ident, addr) ∷ rest

module _ (M : MapCrate ℕ SocketAddr) where
  unfoldable pub add_node : ℕ → SocketAddr → M.Map → M.Map
  add_node ident addr m = M.insert m ident addr

  unfoldable pub get_node : ℕ → M.Map → Option SocketAddr
  get_node ident m = M.get m ident

  unfoldable pub visit_nodes : List ℕ → M.Map → List Visit
  unfolding visit
  visit_nodes [] m = []
  visit_nodes (ident ∷ idents) m = visit ident (M.get m ident) (visit_nodes idents m)

  unfoldable pub visit_masked_nodes : ℕ → ℕ → M.Map → List Visit
  visit_masked_nodes ident mask m = matching ident mask (M.iter m)

  abbrev pub local : Resolver
  local = record {
    State = M.Map;
    add_node = add_node;
    get_node = get_node;
    visit_nodes = visit_nodes;
    visit_masked_nodes = λ ident mask m. (visit_masked_nodes ident mask m, m);
  }
