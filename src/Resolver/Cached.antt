-- ===== src/Resolver/Cached.antt =====
-- crates/kaze-resolver/src/cached.rs: a resolver that keeps the answers of masked visits.
pub mod History
use kaze.Base.{ℕ, List, Option, none, some}
use kaze.Extern.Cache.{CacheCrate}
use kaze.Protocol.Message.{SocketAddr}
use kaze.Resolver.Trait.{Visit, Resolver}

module _ (R : Resolver) (C : CacheCrate (ℕ × ℕ) (List Visit)) where
  abbrev pub State : Type 0
  State = R.State × C.Cache

  abbrev pub new : R.State → State
  new s = (s, C.empty)

  unfoldable pub calc_mask_nodes : ℕ → ℕ → R.State → List Visit × R.State
  calc_mask_nodes ident mask s = R.visit_masked_nodes ident mask s

  -- `get_with`, for what the cache holds under the key.
  get_with : ℕ → ℕ → State → Option (List Visit) → List Visit × State
  unfolding calc_mask_nodes
  get_with ident mask (s, c) (some vs) = (vs, (s, c))
  get_with ident mask (s, c) none =
      let (vs, s') = calc_mask_nodes ident mask s in (vs, (s', C.insert c (ident, mask) vs))

  unfoldable pub add_node : ℕ → SocketAddr → State → State
  add_node ident addr (s, c) = (R.add_node ident addr s, c)

  unfoldable pub get_node : ℕ → State → Option SocketAddr
  get_node ident (s, c) = R.get_node ident s

  unfoldable pub visit_nodes : List ℕ → State → List Visit
  visit_nodes idents (s, c) = R.visit_nodes idents s

  unfoldable pub visit_masked_nodes : ℕ → ℕ → State → List Visit × State
  unfolding get_with
  visit_masked_nodes ident mask (s, c) = get_with ident mask (s, c) (C.get c (ident, mask))

  abbrev pub cached : Resolver
  cached = record {
    State = State;
    add_node = add_node;
    get_node = get_node;
    visit_nodes = visit_nodes;
    visit_masked_nodes = visit_masked_nodes;
  }
