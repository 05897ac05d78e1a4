-- ===== src/Config/Merge.antt =====
-- crates/kaze-plugin/src/config_map/merge.rs: laying one configuration over another.
pub mod Tables
pub mod Failure
pub mod Types
use Prim.Native.String.{String}
use text.Mathlib.Text.{◌==◌ as str_eq}
use kaze.Base.{ℕ, List, [], ◌∷◌, ◌++◌, Bool, if◌then◌else◌, Option, none, some}
use kaze.Config.Value.{
  Value, string, integer, float, boolean, datetime, array, table, Items, nil, cons, Table, end,
  entry, type_str, get, remove, insert, append,
}

-- The path is the list of the names below `$`, outermost first.
pub record Error : Type 0 where
  pub path : List String
  pub expected : String
  pub existing : String

pub data Merged {ℓ} (A : Type ℓ) : Type ℓ where
  ok : A → Merged A
  err : Error → Merged A

infixl 5 ◌>>=◌
abbrev pub ◌>>=◌ {ℓ κ} : {A : Type ℓ} {B : Type κ} → Merged A → (A → Merged B) → Merged B
ok a >>= f = f a
err e >>= f = err e

-- The array rule: `existing` is extended by what follows a leading "+", and else stays.
extend : Items → Items → Items
extend existing (cons (string s) rest) = if str_eq s "+" then append existing rest else existing
extend existing _ = existing

unfoldable pub mismatch : List String → Value → Value → Merged Value
mismatch path v o = err (record { path = path; expected = type_str v; existing = type_str o })

-- Put back what the step of the loop has removed, merged with what comes over it, if it was there.
abbrev place : String → Table → Merged Value → Merged Table
place name value m = m >>= λ v. ok (insert name v value)

unfoldable mutual
  unfolding extend

  pub merge_into_table_inner : Table → Table → List String → Merged Table
  merge_into_table_inner value end path = ok value
  merge_into_table_inner value (entry name inner rest) path =
      (elim (get name value) [
        | some existing ↦
            place name (remove name value) (merge_inner existing inner (path ++ (name ∷ [])))
        | none ↦ ok (insert name inner value)
      ])
      >>= λ value'. merge_into_table_inner value' rest path

  pub merge_inner : Value → Value → List String → Merged Value
  merge_inner (string _) (string inner) path = ok (string inner)
  merge_inner (integer _) (integer inner) path = ok (integer inner)
  merge_inner (float _) (float inner) path = ok (float inner)
  merge_inner (boolean _) (boolean inner) path = ok (boolean inner)
  merge_inner (datetime _) (datetime inner) path = ok (datetime inner)
  merge_inner (array existing) (array inner) path = ok (array (extend existing inner))
  merge_inner (table existing) (table inner) path =
      merge_into_table_inner existing inner path >>= λ t. ok (table t)
  merge_inner v o path = mismatch path v o

unfoldable pub merge : Value → Value → Merged Value
merge value other = merge_inner value other []
