-- ===== src/Resolver/Service.antt =====
-- crates/kaze-resolver/src/service.rs: the routing step of the pipeline.
pub mod Choice
pub mod Routing
use kaze.Base.{ℕ, ◌+◌, List, [], ◌∷◌, map, Bool, if◌then◌else◌, ◌==◌, Option, none, some}
use kaze.Protocol.Hdr.{RouteType, dst_ident, dst_random, dst_broadcast, dst_multicast, DstMask, Hdr}
use kaze.Protocol.Packet.{Packet}
use kaze.Protocol.Message.{SocketAddr, Node, Destination, Message, set_destination}
use kaze.Resolver.Trait.{Visit, Resolver}

abbrev pub node_of : Visit → Node
node_of v = record { ident = v.0; addr = v.1 }

-- The visitor of `dispatch_random`: `draw cnt` is what `random_ratio(1, cnt)` answers on the call
-- with that `cnt`, and `result` is the choice so far.
unfoldable pub choose : (ℕ → Bool) → ℕ → Option Node → List Visit → Option Node
choose draw cnt result [] = result
choose draw cnt result (v ∷ vs) =
    choose draw (cnt + 1) (if draw cnt then some (node_of v) else result) vs

to_node : Option Node → Option Destination
to_node none = none
to_node (some n) = some (Destination.node n)

abbrev pub addr_to_node : ℕ → Option SocketAddr → Option Node
addr_to_node ident none = none
addr_to_node ident (some addr) = some (record { ident = ident; addr = addr })

module _ (R : Resolver) (draw : ℕ → Bool) (local_ident : ℕ) where
  unfoldable pub dispatch_ident : ℕ → R.State → Option Destination
  unfolding to_node
  dispatch_ident ident s = to_node (addr_to_node ident (R.get_node ident s))

  unfoldable pub dispatch_random : ℕ → ℕ → R.State → Option Destination × R.State
  unfolding to_node
  dispatch_random ident mask s =
      let (vs, s') = R.visit_masked_nodes ident mask s in (to_node (choose draw 1 none vs), s')

  unfoldable pub dispatch_broadcast : ℕ → ℕ → R.State → Option Destination × R.State
  dispatch_broadcast ident mask s =
      let (vs, s') = R.visit_masked_nodes ident mask s in
      (some (Destination.node_list (map node_of vs)), s')

  unfoldable pub dispatch_multicast : List ℕ → R.State → Option Destination
  dispatch_multicast idents s = some (Destination.node_list (map node_of (R.visit_nodes idents s)))

  unfoldable pub dispatch : Option RouteType → R.State → Option Destination × R.State
  dispatch none s = (none, s)
  dispatch (some (dst_ident ident)) s =
      if ident == local_ident then (some Destination.host, s) else (dispatch_ident ident s, s)
  dispatch (some (dst_random d)) s = dispatch_random d.ident d.mask s
  dispatch (some (dst_broadcast d)) s = dispatch_broadcast d.ident d.mask s
  dispatch (some (dst_multicast idents)) s = (dispatch_multicast idents s, s)

  unfoldable pub route : Message → Option Destination → Option Message
  route msg none = none
  route msg (some dst) = some (set_destination dst msg)

  -- `ResolverService::serve`: `none` is the `Ok(None)` of a packet with no route.
  unfoldable pub serve : Message → R.State → Option Message × R.State
  unfolding route
  serve msg s = let (dst, s') = dispatch msg.packet.hdr.route_type s in (route msg dst, s')
