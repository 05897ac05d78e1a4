-- ===== src/Tests/Builder.antt =====
-- Two configurations that are numbers; only the first stands in the file, and the command line has one
-- number, which the first takes.
use Prim.Native.String.{String}
use kaze.Base.{ℕ, ◌≡◌, ◌≢◌, refl, ap, ◌∙◌, arith, List, [], ◌∷◌, Outcome, ok, err, inl, inr}
use kaze.Extern.Map.{In}
use kaze.Config.Value.{Value, integer, table, entry, end}
use kaze.Config.Builder.{Merger, TomlTable, ConfigMap, get, merge, merge_all, build}
use kaze.Config.Builder.Found.{Chosen, build-Chosen}
use kaze.Tests.MapModel.{maps, insert_entry}

abbrev read : Value → Outcome (Unit {0}) ℕ
read (integer n) = ok n
read _ = err tt

abbrev update : ℕ → List ℕ → Outcome (Unit {0}) ℕ × List ℕ
update v [] = (ok v, [])
update v (x ∷ xs) = (ok x, xs)

abbrev merger : String → ℕ → Merger ℕ (List ℕ) (Unit {0}) ℕ
merger name type_id = record {
  name = name;
  type_id = type_id;
  deserialize = read;
  default_config = 10;
  update_from_arg_matches_mut = update;
  as_toml = λ n. n;
}

abbrev docs : TomlTable ℕ
docs = record { Doc = List (String × ℕ); empty = []; insert = λ d k i. (k, i) ∷ d }

abbrev mergers : List (Merger ℕ (List ℕ) (Unit {0}) ℕ)
mergers = merger "port" 1 ∷ merger "size" 2 ∷ []

abbrev content : Value
content = table (entry "port" (integer 80) end)

abbrev built : ConfigMap (maps ℕ) docs
built = record {
  map = insert_entry ℕ ((maps ℕ).remove (insert_entry ℕ ([], tt) 1 7) 2) 2 10;
  table = ("size", 10) ∷ ("port", 7) ∷ [];
}

build_runs : build (maps ℕ) docs mergers (7 ∷ []) content ≡ ok (built, [])
unfolding build merge_all merge get kaze.Config.Value.get
build_runs = refl

apart : (n : Merger ℕ (List ℕ) (Unit {0}) ℕ) → In n (merger "size" 2 ∷ []) → 1 ≢ n.type_id
apart n (inl e) = λ same. absurd (omega (arith, same ∙ ap (λ k. k.type_id) e))
apart n (inr m) = absurd m

build-Chosen_example : Chosen (maps ℕ) docs built content mergers (7 ∷ []) []
build-Chosen_example =
    build-Chosen (maps ℕ) docs mergers (7 ∷ []) [] content built build_runs
      (apart, ((λ n i. absurd i), tt))
