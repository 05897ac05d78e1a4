-- ===== src/Config/Builder/Found.antt =====
-- What the map has for each type that was added.
use kaze.Base.{
  ℕ, ◌≡◌, ◌≢◌, refl, sym, ap, ◌∙◌, subst, arith, List, [], ◌∷◌, Bool-cases, ◌==◌, ==_iff, Option,
  none, some, Outcome, ok, err, panic, bind_ok, ok_inj, inl, inr,
}
use kaze.Extern.Map.{MapCrate, In}
use kaze.Config.Value.{Value}
use kaze.Config.Builder.{
  Merger, TomlTable, get, or_else, ConfigMap, config_of, updated, merge, merge_all, build,
  get_config,
}

module _ {V Matches E Item : Type 0} where
  -- Where a configuration comes from that the command line then updates.
  abbrev pub Origin : Merger V Matches E Item → Option Value → Option V → V → Type 0
  Origin m (some t) old v = m.deserialize t ≡ ok v
  Origin m none none v = v ≡ m.default_config
  Origin m none (some old) v = v ≡ old

  -- It is updated from the matches of the command line, and leaves others.
  abbrev Updated : Merger V Matches E Item → Value → Option V → Matches → Matches → V → Type 0
  Updated m content old matches left v =
      (v0 : V) × Origin m (get content m.name) old v0
      × (m.update_from_arg_matches_mut v0 matches ≡ (ok v, left))

  abbrev pub DistinctTypes : List (Merger V Matches E Item) → Type 0
  DistinctTypes [] = Unit
  DistinctTypes (m ∷ ms) =
      ((n : Merger V Matches E Item) → In n ms → m.type_id ≢ n.type_id) × DistinctTypes ms

-- A map says of all other keys what another one says.
abbrev Same : {V : Type 0} (M : MapCrate ℕ V) → ℕ → M.Map → M.Map → Type 0
Same M i map map' = (j : ℕ) → i ≢ j → M.get map' j ≡ M.get map j

module _ {V Matches E Item : Type 0} (M : MapCrate ℕ V) (D : TomlTable Item) where
  config_of_ok :
      (m : Merger V Matches E Item) (content : Value) (map map0 : M.Map) (o : Option Value) (v : V)
      → config_of M D m content map o ≡ ok (v, map0)
      → Origin m o (M.get map m.type_id) v × Same M m.type_id map map0
  unfolding config_of or_else
  config_of_ok m content map map0 (some t) v h =
      let (v', d, e) = bind_ok (m.deserialize t) _ (v, map0) h in
      let same = ok_inj e in (d ∙ ap (λ p. ok p.0) same, λ j ne. ap (λ p. M.get p.1 j) (sym same))
  config_of_ok m content map map0 none v h =
      let same = ok_inj h in
      (
        origin (M.get map m.type_id) (ap (λ p. p.0) (sym same)),
        λ j ne. ap (λ p. M.get p.1 j) (sym same) ∙ M.get-remove_ne map m.type_id j ne,
      )
    where
      origin : (old : Option V) → v ≡ or_else m.default_config old → Origin m none old v
      origin none e = e
      origin (some w) e = e

  updated_ok :
      (m : Merger V Matches E Item) (doc : D.Doc) (map : M.Map) (x : Outcome E V × Matches)
      (c : ConfigMap M D) (matches : Matches)
      → updated M D m doc map x ≡ ok (c, matches)
      → (v : V) × (x ≡ (ok v, matches)) × (c.map ≡ M.insert map m.type_id v)
  unfolding updated
  updated_ok m doc map (ok v, ms) c matches h =
      let same = ok_inj h in (v, ap (λ p. (ok v, p.1)) same, ap (λ p. p.0.map) (sym same))
  updated_ok m doc map (err e, ms) c matches h = cc h
  updated_ok m doc map (panic, ms) c matches h = cc h

  -- What the configurations are: each is what the file has under its name, or its default, updated from
  -- the matches that those before it have left, from `matches` on; `left` is left by the last.
  abbrev pub Chosen :
      ConfigMap M D → Value → List (Merger V Matches E Item) → Matches → Matches → Type 0
  Chosen c content [] matches left = matches ≡ left
  Chosen c content (m ∷ ms) matches left =
      (v0 : V) × (v : V) × (rest : Matches) × Origin m (get content m.name) none v0
      × (m.update_from_arg_matches_mut v0 matches ≡ (ok v, rest))
      × (get_config M D c m.type_id ≡ some v)
      × Chosen c content ms rest left

  -- What a merger has done.
  record Step (m : Merger V Matches E Item) (content : Value) (matches left : Matches)
      (c c' : ConfigMap M D) : Type 0 where
    value : V
    updated_lem : Updated m content (M.get c.map m.type_id) matches left value
    here : M.get c'.map m.type_id ≡ some value
    there : Same M m.type_id c.map c'.map

  merge-Step :
      (m : Merger V Matches E Item) (content : Value) (matches matches' : Matches)
      (c c' : ConfigMap M D)
      → merge M D m content matches c ≡ ok (c', matches')
      → Step m content matches matches' c c'
  unfolding merge
  merge-Step m content matches matches' c c' h =
      let ((v0, map0), e, h') =
        bind_ok (config_of M D m content c.map (get content m.name)) _ (c', matches') h in
      let (origin, same) = config_of_ok m content c.map map0 (get content m.name) v0 e in
      let (v, u, is) =
        updated_ok m c.table map0 (m.update_from_arg_matches_mut v0 matches) c' matches' h' in
      record {
        value = v;
        updated_lem = (v0, origin, u);
        here = ap (λ map. M.get map m.type_id) is ∙ M.get-insert_self map0 m.type_id v;
        there =
            λ j ne. ap (λ map. M.get map j) is ∙ M.get-insert_ne map0 m.type_id j v ne ∙ same j ne;
      }

  -- What is under a type stays under it, or is replaced.
  merge_all-kept :
      (ms : List (Merger V Matches E Item)) (content : Value) (matches matches' : Matches)
      (c c' : ConfigMap M D) (j : ℕ) (v : V)
      → merge_all M D ms content matches c ≡ ok (c', matches')
      → M.get c.map j ≡ some v
      → (w : V) × (M.get c'.map j ≡ some w)
  unfolding merge_all
  merge_all-kept [] content matches matches' c c' j v h g =
      (v, ap (λ p. M.get p.0.map j) (sym (ok_inj h)) ∙ g)
  merge_all-kept (m ∷ ms) content matches matches' c c' j v h g =
      let ((c1, left), e, h') = bind_ok (merge M D m content matches c) _ (c', matches') h in
      let s = merge-Step m content matches left c c1 e in
      elim (Bool-cases (m.type_id == j)) [
        | inl t ↦
            merge_all-kept ms content left matches' c1 c' j s.value h'
              (ap (M.get c1.map) (sym ((==_iff m.type_id j).0 t)) ∙ s.here)
        | inr f ↦
            merge_all-kept ms content left matches' c1 c' j v h' (s.there j (λ e. ground arith) ∙ g)
      ]

  merge_all-found :
      (ms : List (Merger V Matches E Item)) (content : Value) (matches matches' : Matches)
      (c c' : ConfigMap M D) (m : Merger V Matches E Item)
      → merge_all M D ms content matches c ≡ ok (c', matches')
      → In m ms
      → (w : V) × (M.get c'.map m.type_id ≡ some w)
  unfolding merge_all
  merge_all-found [] content matches matches' c c' m h i = absurd i
  merge_all-found (n ∷ ms) content matches matches' c c' m h i =
      let ((c1, left), e, h') = bind_ok (merge M D n content matches c) _ (c', matches') h in
      let s = merge-Step n content matches left c c1 e in
      elim i [
        | inl same ↦
            merge_all-kept ms content left matches' c1 c' m.type_id s.value h'
              (ap (λ k. M.get c1.map k.type_id) same ∙ s.here)
        | inr later ↦ merge_all-found ms content left matches' c1 c' m h' later
      ]

  -- No later merger has the type.
  merge_all-unchanged :
      (ms : List (Merger V Matches E Item)) (content : Value) (matches matches' : Matches)
      (c c' : ConfigMap M D) (j : ℕ)
      → merge_all M D ms content matches c ≡ ok (c', matches')
      → ((n : Merger V Matches E Item) → In n ms → n.type_id ≢ j)
      → M.get c'.map j ≡ M.get c.map j
  unfolding merge_all
  merge_all-unchanged [] content matches matches' c c' j h other =
      ap (λ p. M.get p.0.map j) (sym (ok_inj h))
  merge_all-unchanged (m ∷ ms) content matches matches' c c' j h other =
      let ((c1, left), e, h') = bind_ok (merge M D m content matches c) _ (c', matches') h in
      let s = merge-Step m content matches left c c1 e in
      merge_all-unchanged ms content left matches' c1 c' j h' (λ n i. other n (inr i))
      ∙ s.there j (other m (inl refl))

  merge_all-Chosen :
      (ms : List (Merger V Matches E Item)) (content : Value) (matches matches' : Matches)
      (c c' : ConfigMap M D)
      → merge_all M D ms content matches c ≡ ok (c', matches')
      → DistinctTypes ms
      → ((n : Merger V Matches E Item) → In n ms → M.get c.map n.type_id ≡ none)
      → Chosen c' content ms matches matches'
  unfolding merge_all get_config
  merge_all-Chosen [] content matches matches' c c' h d new = ap (λ p. p.1) (ok_inj h)
  merge_all-Chosen (n ∷ ms) content matches matches' c c' h (apart, d) new =
      let ((c1, left), e, h') = bind_ok (merge M D n content matches c) _ (c', matches') h in
      let s = merge-Step n content matches left c c1 e in
      let (v0, origin, u) =
        subst (λ old. Updated n content old matches left s.value) (new n (inl refl))
          s.updated_lem in
      let kept =
        merge_all-unchanged ms content left matches' c1 c' n.type_id h'
          (λ k j eq. apart k j (sym eq)) in
      (
        v0,
        s.value,
        left,
        origin,
        u,
        kept ∙ s.here,
        merge_all-Chosen ms content left matches' c1 c' h' d
            (λ k j. s.there k.type_id (apart k j) ∙ new k (inr j)),
      )

  -- When the configurations are built, there is one for the type of each that was added.
  pub build_found :
      (ms : List (Merger V Matches E Item)) (matches matches' : Matches) (content : Value)
      (c : ConfigMap M D) (m : Merger V Matches E Item)
      → build M D ms matches content ≡ ok (c, matches')
      → In m ms
      → (v : V) × (get_config M D c m.type_id ≡ some v)
  unfolding build get_config
  build_found ms matches matches' content c m h i =
      merge_all-found ms content matches matches' _ c m h i

  -- When the configurations are built, and no type was added twice: the one for each type is what the file
  -- has under its name, or its default where the file has nothing there, updated from the matches of the
  -- command line: the first from those that were given, each other one from what the one before it has
  -- left, and what the last leaves is returned.
  pub build-Chosen :
      (ms : List (Merger V Matches E Item)) (matches matches' : Matches) (content : Value)
      (c : ConfigMap M D)
      → build M D ms matches content ≡ ok (c, matches')
      → DistinctTypes ms
      → Chosen c content ms matches matches'
  unfolding build
  build-Chosen ms matches matches' content c h d =
      merge_all-Chosen ms content matches matches' _ c h d (λ n j. M.get-empty n.type_id)
