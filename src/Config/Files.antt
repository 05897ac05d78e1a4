-- ===== src/Config/Files.antt =====
-- crates/kaze-plugin/src/config_map/filefinder.rs: which files a configuration is read from. A path is the
-- text of its components; what the operating system and the parser answer is a record.
pub mod Added
pub mod Calls
pub mod Order
pub mod Contents
pub mod Last
use Prim.Native.String.{String, ◌++◌ as ◌<>◌}
use text.Mathlib.Text.{◌==◌ as str_eq}
use kaze.Base.{
  List, [], ◌∷◌, ◌++◌, Bool, if◌then◌else◌, Option, none, some, Outcome, ok, err, panic, ◌>>=◌,
}
use kaze.Config.Value.{Value, table, end}
use kaze.Config.Merge as Merge
use kaze.Config.Merge.{Merged, merge}

pub record System (Io Toml : Type 0) : Type 0 where
  pub is_dir : String → Bool
  pub is_file : String → Bool
  pub join : String → String → String
  pub read_to_string : String → Outcome Io String
  pub from_str : String → Outcome Toml Value
  pub var : String → Option String
  pub config_dir : Option String
  pub current_dir : Option String
  pub current_exe : Option String
  pub file_stem : String → Option String
  pub file_name : String → Option String
  pub parent : String → Option String

pub record ConfigFileBuilder : Type 0 where
  pub names : List String
  pub paths : List String
  pub files : List String

pub data BuildError (Io Toml : Type 0) : Type 0 where
  not_read : Io → BuildError Io Toml
  not_parsed : Toml → BuildError Io Toml
  not_merged : Merge.Error → BuildError Io Toml

-- What is left when the first element that equals `x` is removed; `none` where there is none.
unfoldable pub take_out : String → List String → Option (List String)
take_out x [] = none
take_out x (y ∷ ys) =
    let rest = take_out x ys in
    if str_eq y x then some ys else elim rest [ none ↦ none | some zs ↦ some (y ∷ zs) ]

unfoldable pub new : ConfigFileBuilder
new = record { names = []; paths = []; files = [] }

unfoldable pub add_name : ConfigFileBuilder → String → ConfigFileBuilder
add_name b name = elim (take_out name b.names) [
  | some rest ↦ record b { names = rest ++ (name ∷ []) }
  | none ↦ record b { names = b.names ++ (name ∷ []) }
]

module _ {Io Toml : Type 0} (S : System Io Toml) where
  unfoldable pub add_path : ConfigFileBuilder → String → ConfigFileBuilder
  add_path b path = elim (take_out path b.paths) [
    | some rest ↦ record b { paths = rest ++ (path ∷ []) }
    | none ↦ if S.is_dir path then record b { paths = b.paths ++ (path ∷ []) } else b
  ]

  add_there : ConfigFileBuilder → String → ConfigFileBuilder
  add_there b file = elim (take_out file b.files) [
    | some rest ↦ record b { files = rest ++ (file ∷ []) }
    | none ↦ record b { files = b.files ++ (file ∷ []) }
  ]

  unfoldable pub add_file : ConfigFileBuilder → String → ConfigFileBuilder
  unfolding add_there
  add_file b file = if str_eq file "" then b else if S.is_file file then add_there b file else b

  unfoldable pub add_envname : ConfigFileBuilder → String → String → ConfigFileBuilder
  add_envname b name env = elim (S.var env) [
    | none ↦ b
    | some value ↦ add_name b ((name <> ".") <> value)
  ]

  unfoldable pub add_binname : ConfigFileBuilder → ConfigFileBuilder
  add_binname b = elim S.current_exe [
    | none ↦ b
    | some exe ↦ elim (S.file_name exe) [ none ↦ b | some name ↦ add_name b name ]
  ]

  unfoldable pub add_homeconfig : ConfigFileBuilder → ConfigFileBuilder
  add_homeconfig b = elim S.config_dir [ none ↦ b | some dir ↦ add_path b dir ]

  unfoldable pub add_cwd : ConfigFileBuilder → ConfigFileBuilder
  add_cwd b = elim S.current_dir [ none ↦ b | some dir ↦ add_path b dir ]

  unfoldable pub add_binpath : ConfigFileBuilder → ConfigFileBuilder
  add_binpath b = elim S.current_exe [
    | none ↦ b
    | some exe ↦ elim (S.parent exe) [ none ↦ add_path b "" | some dir ↦ add_path b dir ]
  ]

  default_name : Option String → String
  default_name none = "kaze"
  default_name (some exe) = elim (S.file_stem exe) [ none ↦ "kaze" | some stem ↦ stem ]

  unfoldable pub default : ConfigFileBuilder
  unfolding default_name
  default =
      let name = default_name S.current_exe in
      add_envname (add_binname (add_name (add_binpath (add_cwd (add_homeconfig new))) name)) name
        "KAZE_ENV"

  context : {A E : Type 0} → (E → BuildError Io Toml) → Outcome E A → Outcome (BuildError Io Toml) A
  context f (ok a) = ok a
  context f (err e) = err (f e)
  context f panic = panic

  merged : Merged Value → Outcome (BuildError Io Toml) Value
  merged (Merged.ok v) = ok v
  merged (Merged.err e) = err (not_merged e)

  -- Reading a file, and merging what it has over `value`.
  unfoldable pub load : Value → String → Outcome (BuildError Io Toml) Value
  unfolding context merged
  load value file = context not_read (S.read_to_string file) >>= λ content.
      context not_parsed (S.from_str content) >>= λ current. merged (merge value current)

  unfoldable pub load_name : String → Value → String → Outcome (BuildError Io Toml) Value
  load_name path value name =
      let file = S.join path (name <> ".toml") in
      if S.is_file file then load value file else ok value

  unfoldable pub load_names : String → Value → List String → Outcome (BuildError Io Toml) Value
  load_names path value [] = ok value
  load_names path value (name ∷ names) =
      load_name path value name >>= λ value'. load_names path value' names

  unfoldable pub load_paths : List String → Value → List String → Outcome (BuildError Io Toml) Value
  load_paths names value [] = ok value
  load_paths names value (path ∷ paths) =
      load_names path value names >>= λ value'. load_paths names value' paths

  unfoldable pub load_files : Value → List String → Outcome (BuildError Io Toml) Value
  load_files value [] = ok value
  load_files value (file ∷ files) = load value file >>= λ value'. load_files value' files

  unfoldable pub build : ConfigFileBuilder → Outcome (BuildError Io Toml) Value
  build b = load_paths b.names (table end) b.paths >>= λ value. load_files value b.files
