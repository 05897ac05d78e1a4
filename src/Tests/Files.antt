-- ===== src/Tests/Files.antt =====
-- A configuration of two files: one of a name at a path, and one that is given as a file.
use Prim.Native.String.{◌++◌ as ◌<>◌}
use text.Mathlib.Text.{◌==◌ as str_eq}
use kaze.Base.{◌≡◌, refl, List, [], ◌∷◌, Bool-cases, if◌then◌else◌, ◌||◌, none, some, ok, inl, inr}
use kaze.Config.Value.{Value, integer, string, Table, table, entry, end, get, type_str}
use kaze.Config.Merge.{merge, merge_inner, merge_into_table_inner}
use kaze.Config.Files.{
  System, ConfigFileBuilder, take_out, new, add_name, add_path, add_file, add_binname, add_envname,
  add_homeconfig, add_cwd, add_binpath, default, load, load_name, load_names, load_paths,
  load_files, build,
}
use kaze.Config.Files.Calls.{Call, name, path, file, apply, apply_all, IsValid, builder-IsValid}
use kaze.Config.Files.Contents.{Parses, Finds}
use kaze.Config.Files.Last.{build-SameType, build_last}
use kaze.Config.Merge.Types.{SameType}

abbrev lower : Table
lower = entry "port" (integer 80) (entry "host" (string "a") end)

abbrev upper : Table
upper = entry "port" (integer 81) end

abbrev system : System (Unit {0}) (Unit {0})
system = record {
  is_dir = λ p. str_eq p "/etc";
  is_file = λ p. str_eq p "/etc/kaze.toml" || str_eq p "/my";
  join = λ p n. (p <> "/") <> n;
  read_to_string = λ p. ok (if str_eq p "/my" then "upper" else "lower");
  from_str = λ c. ok (if str_eq c "upper" then table upper else table lower);
  var = λ v. none;
  config_dir = some "/etc";
  current_dir = some "/none";
  current_exe = some "/bin/kaze";
  file_stem = λ p. some "kaze";
  file_name = λ p. some "kaze";
  parent = λ p. some "/bin";
}

abbrev calls : List Call
calls =
    name "a" ∷ path "/etc" ∷ path "/nowhere" ∷ name "kaze" ∷ name "a" ∷ file "/my" ∷ file "" ∷ []

abbrev builder : ConfigFileBuilder
builder = record { names = "kaze" ∷ "a" ∷ []; paths = "/etc" ∷ []; files = "/my" ∷ [] }

calls_run : apply_all system new calls ≡ builder
unfolding apply_all apply add_name add_path add_file take_out new
calls_run = refl

default_runs : default system ≡ record { names = "kaze" ∷ []; paths = "/etc" ∷ []; files = [] }
unfolding default add_envname add_binname add_name add_binpath add_cwd add_homeconfig new add_path
    take_out
default_runs = refl

builder-IsValid_example :
    IsValid system (apply_all system new calls)
    × IsValid system (apply_all system (default system) calls)
builder-IsValid_example = builder-IsValid system calls

parses : Parses system
parses content v h = elim (Bool-cases (str_eq content "upper")) [
  | inl e ↦ (upper, cc (rw e at h), (unfold get in (refl, tt)))
  | inr f ↦ (lower, cc (rw f at h), (unfold get in (refl, (refl, tt))))
]

abbrev result : Value
result = table (entry "port" (integer 81) (entry "host" (string "a") end))

built : build system builder ≡ ok result
unfolding build load_paths load_names load_name load_files load merge merge_inner
    merge_into_table_inner kaze.Config.Value.get kaze.Config.Value.remove kaze.Config.Value.insert
built = refl

build-SameType_example : Finds system result "port" (λ y. SameType y (integer 80))
unfolding get
build-SameType_example =
    build-SameType system parses builder [] ("/my" ∷ []) "/etc/kaze.toml" lower "port" (integer 80)
      result refl ("lower", refl, refl) refl built

build_last_example : Finds system result "port" (λ y. y ≡ integer 81)
unfolding get
build_last_example =
    build_last system parses builder ("/etc/kaze.toml" ∷ []) [] "/my" upper "port" (integer 81)
      result refl ("upper", refl, refl) refl tt (λ g t i h. absurd i) built
