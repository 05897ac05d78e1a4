-- ===== src/Tests/CacheModel.antt =====
-- A cache with room for one entry, which shows that the cache's laws can hold.
use kaze.Base.{
  ℕ, ◌≡◌, refl, if◌then◌else◌, ◌==◌, ==_iff, Bool-cases, Option, none, some, inl, inr, ap₂, sym,
}
use kaze.Extern.Cache.{CacheCrate}

module _ {V : Type 0} where
  abbrev pub entry : Option ((ℕ × ℕ) × V) → ℕ × ℕ → Option V
  entry none k = none
  entry (some ((a, b), v)) (x, y) = if a == x then if b == y then some v else none else none

  pub entry-some : (k j : ℕ × ℕ) (v w : V) → entry (some (k, v)) j ≡ some w → (j ≡ k) × (w ≡ v)
  entry-some (a, b) (x, y) v w e = elim (Bool-cases (a == x)) [
    | inr f ↦ cc (rw f at e)
    | inl t ↦ elim (Bool-cases (b == y)) [
      | inr f ↦ cc (rw (t, f) at e)
      | inl u ↦ (
        ap₂ (λ p q. (p, q)) (sym ((==_iff a x).0 t)) (sym ((==_iff b y).0 u)),
        cc (rw (t, u) at e),
      )
    ]
  ]

abbrev pub small_cache : (V : Type 0) → CacheCrate (ℕ × ℕ) V
small_cache V = record {
  Cache = Option ((ℕ × ℕ) × V);
  empty = none;
  get = entry;
  insert = λ c k v. some (k, v);
  pass = λ c. c;
  get-empty = λ k. refl;
  get-insert = λ c k j v w e. inl (entry-some k j v w e);
  get-pass = λ c k v e. e;
}
