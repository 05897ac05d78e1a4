-- ===== src/Config/Files/Order.antt =====
-- Which files are read, in which order, and what they come to.
use Prim.Native.String.{String, ◌++◌ as ◌<>◌}
use kaze.Base.{
  ◌≡◌, refl, sym, ap, ◌∙◌, List, [], ◌∷◌, ◌++◌, if◌then◌else◌, Bool-cases, ◌>>=◌, bind_assoc,
  bind_same, inl, inr,
}
use kaze.Config.Value.{Value, table, end}
use kaze.Config.Files.{
  System, ConfigFileBuilder, load, load_name, load_names, load_paths, load_files, build,
}

module _ {Io Toml : Type 0} (S : System Io Toml) where
  -- The files of some names at a path.
  abbrev pub at_path : String → List String → List String
  at_path path [] = []
  at_path path (name ∷ names) =
      let rest = at_path path names in
      let file = S.join path (name <> ".toml") in if S.is_file file then file ∷ rest else rest

  abbrev pub at_paths : List String → List String → List String
  at_paths names [] = []
  at_paths names (path ∷ paths) = at_path path names ++ at_paths names paths

  -- The files that are read, in order: of each path those of its names that are there, and then the files
  -- that were added as files.
  abbrev pub sources : ConfigFileBuilder → List String
  sources b = at_paths b.names b.paths ++ b.files

  pub load_files-append :
      (v : Value) (xs ys : List String)
      → load_files S v (xs ++ ys) ≡ (load_files S v xs >>= λ v'. load_files S v' ys)
  unfolding load_files
  load_files-append v [] ys = refl
  load_files-append v (x ∷ xs) ys =
      bind_same (load S v x) _ _ (λ v'. load_files-append v' xs ys)
      ∙ sym (bind_assoc (load S v x) _ _)

  load_names-at_path :
      (path : String) (v : Value) (names : List String)
      → load_names S path v names ≡ load_files S v (at_path path names)
  unfolding load_names load_name load_files
  load_names-at_path path v [] = refl
  load_names-at_path path v (name ∷ names) =
      elim (Bool-cases (S.is_file (S.join path (name <> ".toml")))) [
        | inl is ↦ rw is (bind_same (load S v _) _ _ (λ v'. load_names-at_path path v' names))
        | inr missing ↦ rw missing (load_names-at_path path v names)
      ]

  load_paths-at_paths :
      (names : List String) (v : Value) (paths : List String)
      → load_paths S names v paths ≡ load_files S v (at_paths names paths)
  unfolding load_paths load_files
  load_paths-at_paths names v [] = refl
  load_paths-at_paths names v (path ∷ paths) =
      ap (λ o. o >>= λ v'. load_paths S names v' paths) (load_names-at_path path v names)
      ∙ bind_same (load_files S v (at_path path names)) _ _
          (λ v'. load_paths-at_paths names v' paths)
      ∙ sym (load_files-append v (at_path path names) (at_paths names paths))

  -- Building a configuration merges the files one over the other, in this order, over an empty table.
  pub build-sources : (b : ConfigFileBuilder) → build S b ≡ load_files S (table end) (sources b)
  unfolding build
  build-sources b =
      ap (λ o. o >>= λ v'. load_files S v' b.files)
        (load_paths-at_paths b.names (table end) b.paths)
      ∙ sym (load_files-append (table end) (at_paths b.names b.paths) b.files)
