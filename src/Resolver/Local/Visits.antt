-- ===== src/Resolver/Local/Visits.antt =====
-- Whom the local resolver finds.
use Prim.Native.Nat.{bit_and}
use kaze.Base.{
  ℕ, ◌≡◌, refl, arith, List, [], ◌∷◌, true, if◌then◌else◌, ◌==◌, ==_iff, Bool-cases, Option-cases,
  some, inl, inr, ◌↔◌, ◌++◌, ap, ◌∙◌, sym,
}
use kaze.Extern.Map.{MapCrate, In, DistinctKeys}
use kaze.Protocol.Message.{SocketAddr}
use kaze.Resolver.Trait.{Visit}
use kaze.Resolver.Local.{add_node, get_node, visit_nodes, matching, visit_masked_nodes}

-- The entries that are visited are entries of the map, and match.
pub In-matching :
    (i mask : ℕ) (v : Visit) (xs : List Visit)
    → In v (matching i mask xs)
    → In v xs × (bit_and v.0 mask ≡ i)
unfolding matching
In-matching i mask v [] h = absurd h
In-matching i mask v ((x, b) ∷ xs) h = elim (Bool-cases (bit_and x mask == i)) [
  | inl t ↦ hit ((==_iff (bit_and x mask) i).0 t) (In-matching i mask v xs) (rw t at h)
  | inr f ↦ let (k, m) = In-matching i mask v xs (rw f at h) in (inr k, m)
]
  where
    hit :
        bit_and x mask ≡ i
        → (In v (matching i mask xs) → In v xs × (bit_and v.0 mask ≡ i))
        → In v ((x, b) ∷ matching i mask xs)
        → In v ((x, b) ∷ xs) × (bit_and v.0 mask ≡ i)
    hit t ih (inl same) = (inl same, ap (λ (u : Visit). bit_and u.0 mask) same ∙ t)
    hit t ih (inr k) = let (l, m) = ih k in (inr l, m)

-- Every entry that matches is visited.
pub matching_of_In :
    (i mask : ℕ) (v : Visit) (xs : List Visit)
    → In v xs
    → bit_and v.0 mask ≡ i
    → In v (matching i mask xs)
unfolding matching
matching_of_In i mask v [] h m = h
matching_of_In i mask v ((x, b) ∷ xs) (inl same) m =
    let t : (bit_and x mask == i) ≡ true =
      (==_iff (bit_and x mask) i).1 (ap (λ (u : Visit). bit_and u.0 mask) (sym same) ∙ m) in
    rw t (inl same)
matching_of_In i mask v ((x, b) ∷ xs) (inr k) m = elim (Bool-cases (bit_and x mask == i)) [
  | inl t ↦ rw t (inr (matching_of_In i mask v xs k m))
  | inr f ↦ rw f (matching_of_In i mask v xs k m)
]

-- No ident is visited twice.
pub matching-distinct :
    (i mask : ℕ) (xs : List Visit) → DistinctKeys xs → DistinctKeys (matching i mask xs)
unfolding matching
matching-distinct i mask [] d = tt
matching-distinct i mask ((x, b) ∷ xs) (new, d) = elim (Bool-cases (bit_and x mask == i)) [
  | inl t ↦ rw t ((λ w k. new w (In-matching i mask (x, w) xs k).0), matching-distinct i mask xs d)
  | inr f ↦ rw f (matching-distinct i mask xs d)
]

module _ (M : MapCrate ℕ SocketAddr) where
  -- A node that was added is found under its ident, at its newest address, and every other ident
  -- is found as before.
  pub get-add_node :
      (i j : ℕ) (a : SocketAddr) (m : M.Map)
      → get_node M j (add_node M i a m) ≡ (if i == j then some a else get_node M j m)
  unfolding get_node add_node
  get-add_node i j a m = elim (Bool-cases (i == j)) [
    | inl e ↦ let same = (==_iff i j).0 e in rw (e, ← same) (M.get-insert_self m i a)
    | inr ne ↦ rw ne (M.get-insert_ne m i j a (λ e. ground arith))
  ]

  -- The nodes that a masked visit finds are those of which the ident, masked, is the one asked
  -- for, each at its address and each once.
  pub visit_masked_nodes_lem :
      (i mask : ℕ) (m : M.Map)
      → ((v : Visit)
          → In v (visit_masked_nodes M i mask m)
            ↔ ((get_node M v.0 m ≡ some v.1) × (bit_and v.0 mask ≡ i)))
        × DistinctKeys (visit_masked_nodes M i mask m)
  unfolding visit_masked_nodes get_node
  visit_masked_nodes_lem i mask m = (
    (λ v. (
      (λ h. let (k, e) = In-matching i mask v (M.iter m) h in (M.get_of_in m v.0 v.1 k, e)),
      (λ h. matching_of_In i mask v (M.iter m) (M.in_of_get m v.0 v.1 h.0) h.1),
    )),
    matching-distinct i mask (M.iter m) (M.iter-distinct m),
  )

  -- A visit by one list of idents and then another is one visit.
  pub visit_nodes-append :
      (is js : List ℕ) (m : M.Map)
      → visit_nodes M (is ++ js) m ≡ visit_nodes M is m ++ visit_nodes M js m
  unfolding visit_nodes
  visit_nodes-append [] js m = refl
  visit_nodes-append (i ∷ is) js m = elim (Option-cases (M.get m i)) [
    | inl e ↦ rw e (visit_nodes-append is js m)
    | inr (a, e) ↦ rw e (ap (λ t. (i, a) ∷ t) (visit_nodes-append is js m))
  ]

  In-visit_nodes :
      (v : Visit) (is : List ℕ) (m : M.Map)
      → In v (visit_nodes M is m)
      → In v.0 is × (get_node M v.0 m ≡ some v.1)
  unfolding visit_nodes get_node
  In-visit_nodes v [] m h = absurd h
  In-visit_nodes v (i ∷ is) m h = elim (Option-cases (M.get m i)) [
    | inl e ↦ let (k, g) = In-visit_nodes v is m (rw e at h) in (inr k, g)
    | inr (a, e) ↦ found a e (In-visit_nodes v is m) (rw e at h)
  ]
    where
      found :
          (a : SocketAddr)
          → M.get m i ≡ some a
          → (In v (visit_nodes M is m) → In v.0 is × (M.get m v.0 ≡ some v.1))
          → In v ((i, a) ∷ visit_nodes M is m)
          → In v.0 (i ∷ is) × (M.get m v.0 ≡ some v.1)
      found a e ih (inl same) = (
        inl (ap (λ (u : Visit). u.0) same),
        rw (ap (λ (u : Visit). u.0) same, ap (λ (u : Visit). u.1) same) e,
      )
      found a e ih (inr k) = let (l, g) = ih k in (inr l, g)

  visit_nodes_of_In :
      (v : Visit) (is : List ℕ) (m : M.Map)
      → In v.0 is
      → get_node M v.0 m ≡ some v.1
      → In v (visit_nodes M is m)
  unfolding visit_nodes get_node
  visit_nodes_of_In v [] m h e = h
  visit_nodes_of_In (x, a) (i ∷ is) m (inl same) e = rw (← same, e) (inl refl)
  visit_nodes_of_In v (i ∷ is) m (inr k) e = elim (Option-cases (M.get m i)) [
    | inl f ↦ rw f (visit_nodes_of_In v is m k e)
    | inr (a, f) ↦ rw f (inr (visit_nodes_of_In v is m k e))
  ]

  -- A visit by idents finds the nodes of the listed idents that are known, each at its address,
  -- and nobody else.
  pub visit_nodes_lem :
      (v : Visit) (is : List ℕ) (m : M.Map)
      → In v (visit_nodes M is m) ↔ (In v.0 is × (get_node M v.0 m ≡ some v.1))
  visit_nodes_lem v is m = (In-visit_nodes v is m, λ h. visit_nodes_of_In v is m h.0 h.1)
