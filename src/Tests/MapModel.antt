-- ===== src/Tests/MapModel.antt =====
-- A map over association lists without repeated keys, which shows that the map's laws can hold.
use kaze.Base.{
  ℕ, ◌≡◌, ◌≢◌, refl, arith, List, [], ◌∷◌, true, if◌then◌else◌, ◌==◌, ==_iff, Bool-cases, Option,
  none, some, inl, inr, ap, sym, subst, ◌∙◌,
}
use kaze.Extern.Map.{MapCrate, In, DistinctKeys}

module _ {V : Type 0} where
  abbrev pub lookup : ℕ → List (ℕ × V) → Option V
  lookup k [] = none
  lookup k ((j, v) ∷ xs) = if j == k then some v else lookup k xs

  abbrev pub erase : ℕ → List (ℕ × V) → List (ℕ × V)
  erase k [] = []
  erase k ((j, v) ∷ xs) = let rest = erase k xs in if j == k then rest else (j, v) ∷ rest

  pub lookup-erase :
      (k j : ℕ) (xs : List (ℕ × V)) → lookup j (erase k xs) ≡ (if k == j then none else lookup j xs)
  lookup-erase k j [] = ground arith
  lookup-erase k j ((i, v) ∷ xs) = ground (arith, lookup-erase k j xs)

  pub lookup-erase_self : (k : ℕ) (xs : List (ℕ × V)) → lookup k (erase k xs) ≡ none
  lookup-erase_self k xs = lookup-erase k k xs ∙ ground arith

  pub lookup-erase_ne : (k j : ℕ) (xs : List (ℕ × V)) → k ≢ j → lookup j (erase k xs) ≡ lookup j xs
  lookup-erase_ne k j xs ne = lookup-erase k j xs ∙ ground arith

  pub lookup_head : (k : ℕ) (v : V) (xs : List (ℕ × V)) → lookup k ((k, v) ∷ xs) ≡ some v
  lookup_head k v xs = ground arith

  pub lookup_other :
      (k j : ℕ) (v : V) (xs : List (ℕ × V)) → k ≢ j → lookup j ((k, v) ∷ erase k xs) ≡ lookup j xs
  lookup_other k j v xs ne = ground (arith, lookup-erase k j xs)

  pub In-erase : (k : ℕ) (x : ℕ × V) (xs : List (ℕ × V)) → In x (erase k xs) → In x xs × (x.0 ≢ k)
  In-erase k x [] h = absurd h
  In-erase k x ((i, v) ∷ xs) h = elim (Bool-cases (i == k)) [
    | inl t ↦ let (a, b) = In-erase k x xs (rw t at h) in (inr a, b)
    | inr f ↦ kept (λ e. ground arith) (In-erase k x xs) (rw f at h)
  ]
    where
      kept :
          i ≢ k
          → (In x (erase k xs) → In x xs × (x.0 ≢ k))
          → In x ((i, v) ∷ erase k xs)
          → In x ((i, v) ∷ xs) × (x.0 ≢ k)
      kept ne ih (inl e) = (inl e, λ same. ne (sym (ap (λ (u : ℕ × V). u.0) e) ∙ same))
      kept ne ih (inr m) = let (a, b) = ih m in (inr a, b)

  pub distinct-erase : (k : ℕ) (xs : List (ℕ × V)) → DistinctKeys xs → DistinctKeys (erase k xs)
  distinct-erase k [] d = tt
  distinct-erase k ((i, v) ∷ xs) (new, d) = elim (Bool-cases (i == k)) [
    | inl t ↦ rw t (distinct-erase k xs d)
    | inr f ↦ rw f ((λ w m. new w (In-erase k (i, w) xs m).0), distinct-erase k xs d)
  ]

  pub In-of_lookup : (k : ℕ) (v : V) (xs : List (ℕ × V)) → lookup k xs ≡ some v → In (k, v) xs
  In-of_lookup k v [] e = cc
  In-of_lookup k v ((i, w) ∷ xs) e = elim (Bool-cases (i == k)) [
    | inl t ↦ inl (ground (arith, (==_iff i k).0 t))
    | inr f ↦ inr (In-of_lookup k v xs (rw f at e))
  ]

  pub lookup_of_In :
      (k : ℕ) (v : V) (xs : List (ℕ × V)) → DistinctKeys xs → In (k, v) xs → lookup k xs ≡ some v
  lookup_of_In k v [] d m = absurd m
  lookup_of_In k v ((i, w) ∷ xs) d (inl e) =
      let t : (i == k) ≡ true = (==_iff i k).1 (sym (ap (λ (u : ℕ × V). u.0) e)) in
      rw t (ap (λ (u : ℕ × V). some u.1) (sym e))
  lookup_of_In k v ((i, w) ∷ xs) (new, d) (inr m) = elim (Bool-cases (i == k)) [
    | inl t ↦ absurd (new v (subst (λ t. In (t, v) xs) (sym ((==_iff i k).0 t)) m))
    | inr f ↦ rw f (lookup_of_In k v xs d m)
  ]

abbrev pub Entries : Type 0 → Type 0
Entries V = (xs : List (ℕ × V)) × DistinctKeys xs

module _ (V : Type 0) where
  abbrev pub insert_entry : Entries V → ℕ → V → Entries V
  insert_entry (xs, d) k v =
      ((k, v) ∷ erase k xs, ((λ w m. (In-erase k (k, w) xs m).1 refl), distinct-erase k xs d))

  abbrev pub maps : MapCrate ℕ V
  maps = record {
    Map = Entries V;
    empty = ([], tt);
    get = λ m k. lookup k m.0;
    insert = insert_entry;
    remove = λ m k. (erase k m.0, distinct-erase k m.0 m.1);
    iter = λ m. m.0;
    get-empty = λ k. refl;
    get-insert_self = λ m k v. lookup_head k v (erase k m.0);
    get-insert_ne = λ m k j v ne. lookup_other k j v m.0 ne;
    get-remove_self = λ m k. lookup-erase_self k m.0;
    get-remove_ne = λ m k j ne. lookup-erase_ne k j m.0 ne;
    get_of_in = λ m k v h. lookup_of_In k v m.0 m.1 h;
    in_of_get = λ m k v h. In-of_lookup k v m.0 h;
    iter-distinct = λ m. m.1;
  }
