-- ===== src/Extern/Lru.antt =====
-- `lru::LruCache`, by the documented behaviour of the calls that the program makes. Which entry goes
-- when the cache is full is left to the crate.
use kaze.Base.{◌≡◌, Option, none, some}

pub record LruCrate (K V : Type 0) : Type 1 where
  pub Cache : Type 0
  pub get : Cache → K → Option V
  -- A `get` makes its entry the newest.
  pub touch : Cache → K → Cache
  pub put : Cache → K → V → Cache
  pub pop : Cache → K → Cache
  pub get-touch : (c : Cache) (k j : K) → get (touch c k) j ≡ get c j
  pub get-put : (c : Cache) (k : K) (v : V) → get (put c k v) k ≡ some v
  pub get-pop : (c : Cache) (k : K) → get (pop c k) k ≡ none
