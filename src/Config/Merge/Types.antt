-- ===== src/Config/Merge/Types.antt =====
-- The type of what two values merge to.
use Prim.Native.String.{String}
use kaze.Base.{◌≡◌, List, arith}
use kaze.Config.Value.{Value, array, table, type_str}
use kaze.Config.Merge.{ok, merge_inner, mismatch}

abbrev pub SameType : Value → Value → Type 0
SameType a b = type_str a ≡ type_str b

-- A value that is neither an array nor a table.
abbrev pub IsPlain : Value → Type 0
IsPlain (array l) = ⊥
IsPlain (table t) = ⊥
IsPlain _ = Unit

pub merge_inner-SameType :
    (a b c : Value) (path : List String) → merge_inner a b path ≡ ok c → SameType c a × SameType c b
unfolding merge_inner type_str mismatch
merge_inner-SameType a b c path h = ground arith

pub merge_inner-plain :
    (a b c : Value) (path : List String) → merge_inner a b path ≡ ok c → IsPlain b → c ≡ b
unfolding merge_inner mismatch
merge_inner-plain a b c path h plain = ground arith
