-- ===== src/Resolver/Cached/History.antt =====
-- How old the answers of a cached resolver are.
use kaze.Base.{ℕ, ◌≡◌, refl, ap, List, [], ◌∷◌, Option-cases, none, some, inl, inr, ◌⊎◌}
use kaze.Extern.Map.{MapCrate, In}
use kaze.Extern.Cache.{CacheCrate}
use kaze.Protocol.Message.{SocketAddr}
use kaze.Resolver.Trait.{Visit}
use kaze.Resolver.Local as Local
use kaze.Resolver.Local.{local}
use kaze.Resolver.Cached.{State, new, add_node, visit_masked_nodes, get_with}

-- What happens to the resolver: a node is added, a visit is made, or time passes.
pub data Op : Type 0 where
  add : ℕ → SocketAddr → Op
  visit : ℕ → ℕ → Op
  pass : Op

module _ (M : MapCrate ℕ SocketAddr) (C : CacheCrate (ℕ × ℕ) (List Visit)) where
  abbrev pub Keeps : Type 0
  Keeps = State (local M) C

  -- The state after an operation.
  unfoldable pub apply : Op → Keeps → Keeps
  apply (add i a) s = add_node (local M) C i a s
  apply (visit i mask) s = (visit_masked_nodes (local M) C i mask s).1
  apply pass (m, c) = (m, C.pass c)

  unfoldable pub run : List Op → Keeps → Keeps
  run [] s = s
  run (op ∷ ops) s = run ops (apply op s)

  -- The maps of nodes that the operations go through, the first one included.
  unfoldable pub maps_of : List Op → Keeps → List M.Map
  maps_of [] s = s.0 ∷ []
  maps_of (op ∷ ops) s = s.0 ∷ maps_of ops (apply op s)

  -- The answer to a masked visit at one of the maps.
  abbrev pub AnswerAt : List M.Map → ℕ → ℕ → List Visit → Type 0
  AnswerAt past i mask vs = (m : M.Map) × In m past × (vs ≡ Local.visit_masked_nodes M i mask m)

  -- Every entry of the cache was the right answer at one of the maps.
  abbrev pub Recorded : List M.Map → C.Cache → Type 0
  Recorded past c =
      (i mask : ℕ) (vs : List Visit) → C.get c (i, mask) ≡ some vs → AnswerAt past i mask vs

  visit_cases :
      (past : List M.Map) (i mask : ℕ) (s : Keeps)
      → In s.0 past
      → Recorded past s.1
      → AnswerAt past i mask (visit_masked_nodes (local M) C i mask s).0
        × Recorded past (visit_masked_nodes (local M) C i mask s).1.1
        × ((visit_masked_nodes (local M) C i mask s).1.0 ≡ s.0)
  unfolding visit_masked_nodes get_with kaze.Resolver.Cached.calc_mask_nodes
  visit_cases past i mask (m, c) now kept = elim (Option-cases (C.get c (i, mask))) [
    | inr (vs, e) ↦ rw e (kept i mask vs e, kept, refl)
    | inl e ↦ rw e ((m, now, refl), inserted, refl)
  ]
    where
      inserted : Recorded past (C.insert c (i, mask) (Local.visit_masked_nodes M i mask m))
      inserted j k ws g = elim (C.get-insert c (i, mask) (j, k) _ ws g) [
        | inr old ↦ kept j k ws old
        | inl (same, v) ↦
            (m, now, rw (ap (λ (u : ℕ × ℕ). u.0) same, ap (λ (u : ℕ × ℕ). u.1) same) v)
      ]

  apply-Recorded :
      (op : Op) (past : List M.Map) (s : Keeps)
      → In s.0 past
      → Recorded past s.1
      → Recorded past (apply op s).1
  unfolding apply add_node
  apply-Recorded (add i a) past s now kept = kept
  apply-Recorded (visit i mask) past s now kept = (visit_cases past i mask s now kept).1
  apply-Recorded pass past (m, c) now kept =
      λ i mask vs e. kept i mask vs (C.get-pass c (i, mask) vs e)

  run-Recorded :
      (past : List M.Map) (ops : List Op) (s : Keeps)
      → ((m : M.Map) → In m (maps_of ops s) → In m past)
      → Recorded past s.1
      → In (run ops s).0 past × Recorded past (run ops s).1
  unfolding run maps_of
  run-Recorded past [] s sub kept = (sub s.0 (inl refl), kept)
  run-Recorded past (op ∷ ops) s sub kept =
      run-Recorded past ops (apply op s) (λ m k. sub m (inr k))
        (apply-Recorded op past s (sub s.0 (inl refl)) kept)

  -- After any additions, visits and lapses of time, a masked visit answers with what the local
  -- resolver itself answered at one of the maps that it has gone through: an answer may be old,
  -- but it is never one that was not right at some time.
  pub visit_answers_past :
      (ops : List Op) (m : M.Map) (i mask : ℕ)
      → AnswerAt
          (maps_of ops (new (local M) C m))
          i
          mask
          (visit_masked_nodes (local M) C i mask (run ops (new (local M) C m))).0
  visit_answers_past ops m i mask =
      let start : Keeps = new (local M) C m in
      let (now, kept) =
        run-Recorded (maps_of ops start) ops start (λ m k. k)
          (λ j k vs e. cc (e, C.get-empty (j, k))) in
      (visit_cases (maps_of ops start) i mask (run ops start) now kept).0

  -- A masked visit answers with what the cache holds, if it holds anything, and else with what the
  -- local resolver answers now; and it never changes what the local resolver knows.
  pub visit_now :
      (i mask : ℕ) (s : Keeps)
      → (((vs : List Visit) × (C.get s.1 (i, mask) ≡ some vs)
            × ((visit_masked_nodes (local M) C i mask s).0 ≡ vs))
          ⊎ ((C.get s.1 (i, mask) ≡ none)
              × ((visit_masked_nodes (local M) C i mask s).0
                  ≡ Local.visit_masked_nodes M i mask s.0)))
        × ((visit_masked_nodes (local M) C i mask s).1.0 ≡ s.0)
  unfolding visit_masked_nodes get_with kaze.Resolver.Cached.calc_mask_nodes
  visit_now i mask (m, c) = elim (Option-cases (C.get c (i, mask))) [
    | inr (vs, e) ↦ (inl (vs, e, rw e refl), rw e refl)
    | inl e ↦ (inr (e, rw e refl), rw e refl)
  ]
