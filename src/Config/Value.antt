-- ===== src/Config/Value.antt =====
-- `toml::Value`, by the variants that the code matches on. A table is the list of its entries in
-- the order that iteration yields them; an integer, a float and a date are opaque numbers, which
-- are only moved.
use Prim.Native.String.{String}
use text.Mathlib.Text.{◌==◌ as str_eq}
use kaze.Base.{ℕ, Bool, if◌then◌else◌, Option, none, some}

mutual
  pub data Value : Type 0 where
    string : String → Value
    integer : ℕ → Value
    float : ℕ → Value
    boolean : Bool → Value
    datetime : ℕ → Value
    array : Items → Value
    table : Table → Value

  pub data Items : Type 0 where
    nil : Items
    cons : Value → Items → Items

  pub data Table : Type 0 where
    end : Table
    entry : String → Value → Table → Table

-- `type_str`, as `toml` documents it.
unfoldable pub type_str : Value → String
type_str (string _) = "string"
type_str (integer _) = "integer"
type_str (float _) = "float"
type_str (boolean _) = "boolean"
type_str (datetime _) = "datetime"
type_str (array _) = "array"
type_str (table _) = "table"

-- `get`, `remove` and `insert` of `toml::map::Map`.
unfoldable pub get : String → Table → Option Value
get k end = none
get k (entry j v t) = if str_eq j k then some v else get k t

unfoldable pub remove : String → Table → Table
remove k end = end
remove k (entry j v t) = let rest = remove k t in if str_eq j k then rest else entry j v rest

unfoldable pub insert : String → Value → Table → Table
insert k v t = entry k v (remove k t)

unfoldable pub append : Items → Items → Items
append nil ys = ys
append (cons x xs) ys = cons x (append xs ys)
