-- ===== src/Tests/Config.antt =====
-- Runs of the configuration merge, and its theorem at two tables.
use Prim.Native.String.{String}
use kaze.Base.{◌≡◌, refl, [], ◌∷◌, true}
use kaze.Config.Value.{
  Value, string, integer, boolean, array, table, Items, nil, cons, Table, end, entry, get,
}
use kaze.Config.Merge.{Error, Merged, ok, err, merge, merge_inner, merge_into_table_inner}
use kaze.Config.Merge.Failure.{ClashAt, merge_clash}
use kaze.Config.Merge.Tables.{Under, merge_lookup}

abbrev lower : Table
lower = entry "port" (integer 80) (entry "names" (array (cons (string "a") nil)) end)

abbrev upper : Table
upper =
    entry "port" (integer 81)
      (entry "names" (array (cons (string "+") (cons (string "b") nil))) end)

abbrev both : Table
both =
    entry "names" (array (cons (string "a") (cons (string "b") nil)))
      (entry "port" (integer 81) end)

merge_runs : merge (table lower) (table upper) ≡ ok (table both)
unfolding merge merge_inner merge_into_table_inner kaze.Config.Value.get kaze.Config.Value.remove
    kaze.Config.Value.insert kaze.Config.Value.append
merge_runs = refl

mismatch_runs :
    merge (table (entry "foo" (boolean true) end)) (table (entry "foo" (integer 42) end))
    ≡ err (record { path = "foo" ∷ []; expected = "boolean"; existing = "integer" })
unfolding merge merge_inner merge_into_table_inner kaze.Config.Value.get kaze.Config.Value.remove
    kaze.Config.Value.type_str kaze.Config.Merge.mismatch
mismatch_runs = refl

merge_lookup_example : Under [] "port" (get "port" lower) (get "port" upper) (get "port" both)
unfolding merge_into_table_inner merge_inner kaze.Config.Value.get kaze.Config.Value.remove
    kaze.Config.Value.insert kaze.Config.Value.append
merge_lookup_example = merge_lookup lower upper both [] "port" (refl, (refl, tt)) refl

abbrev flag : Table
flag = entry "foo" (boolean true) end

abbrev number : Table
number = entry "foo" (integer 42) end

merge_clash_example :
    (k : String) × ClashAt [] flag number
      (record { path = "foo" ∷ []; expected = "boolean"; existing = "integer" })
      k
unfolding merge_into_table_inner merge_inner kaze.Config.Value.get kaze.Config.Value.remove
    kaze.Config.Value.type_str kaze.Config.Merge.mismatch
merge_clash_example =
    merge_clash flag number []
      (record { path = "foo" ∷ []; expected = "boolean"; existing = "integer" }) (refl, tt) refl
