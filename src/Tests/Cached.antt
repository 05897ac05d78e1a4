-- ===== src/Tests/Cached.antt =====
-- Runs of the cached resolver, and its theorems at them.
use kaze.Base.{◌≡◌, refl, List, [], ◌∷◌}
use kaze.Protocol.Message.{SocketAddr}
use kaze.Resolver.Trait.{Visit}
use kaze.Resolver.Local as Local
use kaze.Resolver.Local.{local}
use kaze.Resolver.Cached.{new, add_node, visit_masked_nodes}
use kaze.Resolver.Cached.History.{
  Op, add, visit, pass, run, maps_of, AnswerAt, visit_answers_past, visit_now,
}
use kaze.Tests.MapModel.{Entries, maps}
use kaze.Tests.CacheModel.{small_cache}
use kaze.Tests.Protocol.{addr}

abbrev nobody : Entries SocketAddr
nobody = ([], tt)

abbrev ops : List Op
ops = add 1 addr ∷ visit 0 0 ∷ add 2 addr ∷ []

-- The second node is not found while the first answer is kept.
old_answer :
    (visit_masked_nodes (local (maps SocketAddr)) (small_cache (List Visit)) 0 0 (
      run
        (maps SocketAddr)
        (small_cache (List Visit))
        ops
        (new (local (maps SocketAddr)) (small_cache (List Visit)) nobody))).0
    ≡ (1, addr) ∷ []
unfolding run kaze.Resolver.Cached.History.apply visit_masked_nodes add_node
    Local.visit_masked_nodes Local.matching Local.add_node kaze.Resolver.Cached.calc_mask_nodes
old_answer = refl

visit_answers_past_example :
    AnswerAt
      (maps SocketAddr)
      (small_cache (List Visit))
      (maps_of
        (maps SocketAddr)
        (small_cache (List Visit))
        ops
        (new (local (maps SocketAddr)) (small_cache (List Visit)) nobody))
      0
      0
      (visit_masked_nodes (local (maps SocketAddr)) (small_cache (List Visit)) 0 0 (
        run
          (maps SocketAddr)
          (small_cache (List Visit))
          ops
          (new (local (maps SocketAddr)) (small_cache (List Visit)) nobody))).0
visit_answers_past_example =
    visit_answers_past (maps SocketAddr) (small_cache (List Visit)) ops nobody 0 0
