-- ===== src/Extern/Map.antt =====
-- `papaya::HashMap` and the standard `HashMap`, by the documented behaviour of the calls that the program makes.
use kaze.Base.{◌≡◌, ◌≢◌, List, [], ◌∷◌, Option, none, some, ◌⊎◌}

-- `x` stands in a list.
abbrev pub In : {A : Type 0} → A → List A → Type 0
In x [] = ⊥
In x (y ∷ ys) = (x ≡ y) ⊎ In x ys

-- No key stands twice.
abbrev pub DistinctKeys : {K V : Type 0} → List (K × V) → Type 0
DistinctKeys [] = Unit
DistinctKeys {V = V} ((k, v) ∷ xs) = ((w : V) → ¬ In (k, w) xs) × DistinctKeys xs

pub record MapCrate (K V : Type 0) : Type 1 where
  pub Map : Type 0
  pub empty : Map
  pub get : Map → K → Option V
  pub insert : Map → K → V → Map
  pub remove : Map → K → Map
  pub iter : Map → List (K × V)
  pub get-empty : (k : K) → get empty k ≡ none
  pub get-insert_self : (m : Map) (k : K) (v : V) → get (insert m k v) k ≡ some v
  pub get-insert_ne : (m : Map) (k j : K) (v : V) → k ≢ j → get (insert m k v) j ≡ get m j
  pub get-remove_self : (m : Map) (k : K) → get (remove m k) k ≡ none
  pub get-remove_ne : (m : Map) (k j : K) → k ≢ j → get (remove m k) j ≡ get m j
  pub get_of_in : (m : Map) (k : K) (v : V) → In (k, v) (iter m) → get m k ≡ some v
  pub in_of_get : (m : Map) (k : K) (v : V) → get m k ≡ some v → In (k, v) (iter m)
  pub iter-distinct : (m : Map) → DistinctKeys (iter m)
