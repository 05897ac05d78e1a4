-- ===== src/Extern/Cache.antt =====
-- `moka::future::Cache`, by the documented behaviour of `get_with`: it looks a key up, or else
-- computes the value and inserts it. An entry may be gone at any time: the cache evicts, and
-- entries expire.
use kaze.Base.{◌≡◌, ◌⊎◌, Option, none, some}

pub record CacheCrate (K V : Type 0) : Type 1 where
  pub Cache : Type 0
  pub empty : Cache
  pub get : Cache → K → Option V
  pub insert : Cache → K → V → Cache
  -- Time passes.
  pub pass : Cache → Cache
  pub get-empty : (k : K) → get empty k ≡ none
  pub get-insert :
      (c : Cache) (k j : K) (v w : V)
      → get (insert c k v) j ≡ some w
      → ((j ≡ k) × (w ≡ v)) ⊎ (get c j ≡ some w)
  pub get-pass : (c : Cache) (k : K) (v : V) → get (pass c) k ≡ some v → get c k ≡ some v
