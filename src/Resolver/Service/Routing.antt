-- ===== src/Resolver/Service/Routing.antt =====
-- Where a packet goes that is routed over the local resolver.
use Prim.Native.Nat.{bit_and}
use kaze.Base.{
  ℕ, ◌≡◌, ◌≢◌, refl, arith, List, map, Bool, true, ◌==◌, ==_iff, Bool-cases, Option-cases, Option,
  none, some, ◌⊎◌, inl, inr, ◌↔◌, ap₂, subst,
}
use mathlib.Core.Option
use kaze.Extern.Map.{MapCrate, In, DistinctKeys}
use kaze.Protocol.Hdr.{RouteType, dst_ident, dst_random, dst_broadcast, dst_multicast}
use kaze.Protocol.Message.{SocketAddr, Destination, Message, set_destination}
use kaze.Resolver.Trait.{Visit}
use kaze.Resolver.Local.{local, get_node, visit_masked_nodes}
use kaze.Resolver.Local.Visits.{visit_masked_nodes_lem, visit_nodes_lem}
use kaze.Resolver.Service.{
  node_of, addr_to_node, choose, dispatch, dispatch_random, dispatch_broadcast, route, serve,
}
use kaze.Resolver.Service.Choice.{choose_lem}

module _ (M : MapCrate ℕ SocketAddr) where
  -- The node is known at that address.
  abbrev pub Knows : M.Map → Visit → Type 0
  Knows m v = get_node M v.0 m ≡ some v.1

  abbrev pub Selects : ℕ → ℕ → M.Map → Visit → Type 0
  Selects ident mask m v = Knows m v × (bit_and v.0 mask ≡ ident)

  -- The destination that a route asks for, where `me` is the ident of this node.
  abbrev pub Goes : ℕ → M.Map → Option RouteType → Option Destination → Type 0
  Goes me m none d = d ≡ none
  Goes me m (some (dst_ident i)) d =
      ((i ≡ me) × (d ≡ some Destination.host))
      ⊎ ((i ≢ me) × (get_node M i m ≡ none) × (d ≡ none))
      ⊎ ((i ≢ me)
          × ((a : SocketAddr) × Knows m (i, a) × (d ≡ some (Destination.node (node_of (i, a))))))
  Goes me m (some (dst_random r)) d =
      (((v : Visit) → ¬ Selects r.ident r.mask m v) × (d ≡ none))
      ⊎ ((v : Visit) × Selects r.ident r.mask m v × (d ≡ some (Destination.node (node_of v))))
  Goes me m (some (dst_broadcast r)) d =
      (vs : List Visit) × (d ≡ some (Destination.node_list (map node_of vs)))
      × ((v : Visit) → In v vs ↔ Selects r.ident r.mask m v)
      × DistinctKeys vs
  Goes me m (some (dst_multicast is)) d =
      (vs : List Visit) × (d ≡ some (Destination.node_list (map node_of vs)))
      × ((v : Visit) → In v vs ↔ (In v.0 is × Knows m v))

  module _ (draw : ℕ → Bool) (me : ℕ) (m : M.Map) (sure : draw 1 ≡ true) where
    Goes-ident :
        (i : ℕ)
        → Goes me m (some (dst_ident i)) (dispatch (local M) draw me (some (dst_ident i)) m).0
    unfolding dispatch kaze.Resolver.Service.dispatch_ident get_node
    Goes-ident i = elim (Bool-cases (i == me)) [
      | inl t ↦ inl ((==_iff i me).0 t, rw t refl)
      | inr f ↦ elim (Option-cases (M.get m i)) [
        | inl e ↦ inr (inl ((λ s. ground arith), e, rw (f, e) refl))
        | inr (a, e) ↦ inr (inr ((λ s. ground arith), (a, e, rw (f, e) refl)))
      ]
    ]

    Goes-random :
        (i mask : ℕ)
        → Goes me m
            (some (dst_random (record { ident = i; mask = mask })))
            (dispatch_random (local M) draw me i mask m).0
    unfolding dispatch_random
    Goes-random i mask = elim (choose_lem draw (visit_masked_nodes M i mask m) sure) [
      | inl (none_in, e) ↦
          inl (
            (λ v s. subst (In v) none_in (((visit_masked_nodes_lem M i mask m).0 v).1 s)),
            rw e refl,
          )
      | inr (v, k, e) ↦ inr (v, ((visit_masked_nodes_lem M i mask m).0 v).0 k, rw e refl)
    ]

    -- Over the local resolver every packet is sent where its route asks: to the host for this
    -- node's own ident, to the node of another known ident, to one of the nodes that a mask
    -- selects (if there is one), to all of these, each once, or to all known nodes of a list; and
    -- it has no destination without a route, for an unknown ident and for a random choice among
    -- none. `random_ratio(1, 1)` is taken to be true, as documented.
    pub dispatch-Goes : (rt : Option RouteType) → Goes me m rt (dispatch (local M) draw me rt m).0
    unfolding dispatch dispatch_broadcast kaze.Resolver.Service.dispatch_multicast
    dispatch-Goes none = refl
    dispatch-Goes (some (dst_ident i)) = Goes-ident i
    dispatch-Goes (some (dst_random r)) = Goes-random r.ident r.mask
    dispatch-Goes (some (dst_broadcast r)) =
        let (found, once) = visit_masked_nodes_lem M r.ident r.mask m in
        (visit_masked_nodes M r.ident r.mask m, refl, found, once)
    dispatch-Goes (some (dst_multicast is)) =
        (kaze.Resolver.Local.visit_nodes M is m, refl, λ v. visit_nodes_lem M v is m)

    keeps : (rt : Option RouteType) → (dispatch (local M) draw me rt m).1 ≡ m
    unfolding dispatch dispatch_random dispatch_broadcast
    keeps none = refl
    keeps (some (dst_ident i)) = ground arith
    keeps (some (dst_random r)) = refl
    keeps (some (dst_broadcast r)) = refl
    keeps (some (dst_multicast is)) = refl

    -- Over the local resolver, and with `random_ratio(1, 1)` true, as documented: the routing step
    -- sends each message where its packet's route goes (`Goes`): it passes the message on
    -- with that destination and nothing else changed, or drops it when there is none, and leaves
    -- the resolver as it was.
    pub serve-Goes :
        (msg : Message)
        → (d : Option Destination) × Goes me m msg.packet.hdr.route_type d
          × (serve (local M) draw me msg m ≡ (Option.map (λ x. set_destination x msg) d, m))
    unfolding serve
    serve-Goes msg = (
      (dispatch (local M) draw me msg.packet.hdr.route_type m).0,
      dispatch-Goes msg.packet.hdr.route_type,
      ap₂ (λ a b. (a, b)) (routed (dispatch (local M) draw me msg.packet.hdr.route_type m).0)
          (keeps msg.packet.hdr.route_type),
    )
      where
        routed :
            (d : Option Destination)
            → route (local M) draw me msg d ≡ Option.map (λ x. set_destination x msg) d
        routed none = refl
        routed (some x) = refl
