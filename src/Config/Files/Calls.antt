-- ===== src/Config/Files/Calls.antt =====
-- The names, the paths and the files after any calls.
use Prim.Native.String.{String}
use text.Mathlib.Text.{◌==◌ as str_eq}
use text.Mathlib.TextEquality.{eq_iff}
use kaze.Base.{
  ◌≡◌, ◌≢◌, sym, ap, ◌∙◌, List, [], ◌∷◌, ◌++◌, true, if◌then◌else◌, Bool-cases, Option, none, some,
  inl, inr,
}
use kaze.Extern.Map.{In}
use kaze.Config.Files.{
  System, ConfigFileBuilder, take_out, new, add_name, add_path, add_there, add_file, add_envname,
  add_binname, add_homeconfig, add_cwd, add_binpath, default,
}
use kaze.Config.Files.Added.{Distinct, Taken, take_out-Taken, Added, added, moved}

pub data Call : Type 0 where
  name : String → Call
  envname : String → String → Call
  binname homeconfig cwd binpath : Call
  path file : String → Call

module _ {Io Toml : Type 0} (S : System Io Toml) where
  unfoldable pub apply : ConfigFileBuilder → Call → ConfigFileBuilder
  apply b (name n) = add_name b n
  apply b (envname n env) = add_envname S b n env
  apply b binname = add_binname S b
  apply b homeconfig = add_homeconfig S b
  apply b cwd = add_cwd S b
  apply b binpath = add_binpath S b
  apply b (path p) = add_path S b p
  apply b (file f) = add_file S b f

  unfoldable pub apply_all : ConfigFileBuilder → List Call → ConfigFileBuilder
  apply_all b [] = b
  apply_all b (c ∷ cs) = apply_all (apply b c) cs

  abbrev pub ValidPaths : List String → Type 0
  ValidPaths ps = Distinct ps × ((p : String) → In p ps → S.is_dir p ≡ true)

  abbrev pub ValidFiles : List String → Type 0
  ValidFiles fs = Distinct fs × ((f : String) → In f fs → (S.is_file f ≡ true) × (f ≢ ""))

  -- No name, path or file stands twice; the paths are directories, and the files are files.
  abbrev pub IsValid : ConfigFileBuilder → Type 0
  IsValid b = Distinct b.names × ValidPaths b.paths × ValidFiles b.files

  add_name-IsValid : (b : ConfigFileBuilder) (n : String) → IsValid b → IsValid (add_name b n)
  unfolding add_name
  add_name-IsValid b n v = go (take_out n b.names) (take_out-Taken n b.names)
    where
      put : (ns : List String) → Added n b.names ns → IsValid (record b { names = ns })
      put ns a = (a.distinct v.0, v.1, v.2)

      go :
          (o : Option (List String))
          → Taken n b.names o
          → IsValid (elim o [
            | some rest ↦ record b { names = rest ++ (n ∷ []) }
            | none ↦ record b { names = b.names ++ (n ∷ []) }
          ])
      go none t = put _ (added n b.names t)
      go (some zs) t = put _ (moved n b.names zs t)

  add_path-IsValid : (b : ConfigFileBuilder) (p : String) → IsValid b → IsValid (add_path S b p)
  unfolding add_path
  add_path-IsValid b p v = go (take_out p b.paths) (take_out-Taken p b.paths)
    where
      put :
          (ps : List String)
          → Added p b.paths ps
          → S.is_dir p ≡ true
          → IsValid (record b { paths = ps })
      put ps a d = (
        v.0,
        (
          a.distinct v.1.0,
          λ q m. elim ((a.in_iff q).0 m) [ inl e ↦ ap S.is_dir e ∙ d | inr n ↦ v.1.1 q n ],
        ),
        v.2,
      )

      go :
          (o : Option (List String))
          → Taken p b.paths o
          → IsValid (elim o [
            | some rest ↦ record b { paths = rest ++ (p ∷ []) }
            | none ↦ if S.is_dir p then record b { paths = b.paths ++ (p ∷ []) } else b
          ])
      go (some zs) t = put _ (moved p b.paths zs t) (v.1.1 p t.3)
      go none t = elim (Bool-cases (S.is_dir p)) [
        | inl d ↦ rw d (put _ (added p b.paths t) d)
        | inr f ↦ rw f v
      ]

  add_file-IsValid : (b : ConfigFileBuilder) (f : String) → IsValid b → IsValid (add_file S b f)
  unfolding add_file add_there
  add_file-IsValid b f v = elim (Bool-cases (str_eq f "")) [
    | inl e ↦ rw e v
    | inr named ↦ rw named (elim (Bool-cases (S.is_file f)) [
      | inr missing ↦ rw missing v
      | inl is ↦ rw is (
          go is (λ e. cc ((eq_iff f "").1 e, named)) (take_out f b.files)
            (take_out-Taken f b.files))
    ])
  ]
    where
      put :
          (fs : List String)
          → Added f b.files fs
          → S.is_file f ≡ true
          → f ≢ ""
          → IsValid (record b { files = fs })
      put fs a is ne = (
        v.0,
        v.1,
        (
          a.distinct v.2.0,
          λ g m. elim ((a.in_iff g).0 m) [
            | inl e ↦ (ap S.is_file e ∙ is, λ h. ne (sym e ∙ h))
            | inr n ↦ v.2.1 g n
          ],
        ),
      )

      go :
          S.is_file f ≡ true
          → f ≢ ""
          → (o : Option (List String)) → Taken f b.files o
          → IsValid (elim o [
            | some rest ↦ record b { files = rest ++ (f ∷ []) }
            | none ↦ record b { files = b.files ++ (f ∷ []) }
          ])
      go is ne none t = put _ (added f b.files t) is ne
      go is ne (some zs) t = put _ (moved f b.files zs t) is ne

  maybe-IsValid :
      (b : ConfigFileBuilder) (f : String → ConfigFileBuilder) (o : Option String)
      → IsValid b
      → ((x : String) → IsValid (f x))
      → IsValid (elim o [ none ↦ b | some x ↦ f x ])
  maybe-IsValid b f none v w = v
  maybe-IsValid b f (some x) v w = w x

  binpath-IsValid : (b : ConfigFileBuilder) → IsValid b → IsValid (add_binpath S b)
  unfolding add_binpath
  binpath-IsValid b v = maybe-IsValid b _ S.current_exe v (λ exe. go (S.parent exe))
    where
      go :
          (o : Option String)
          → IsValid (elim o [ none ↦ add_path S b "" | some dir ↦ add_path S b dir ])
      go none = add_path-IsValid b "" v
      go (some dir) = add_path-IsValid b dir v

  binname-IsValid : (b : ConfigFileBuilder) → IsValid b → IsValid (add_binname S b)
  unfolding add_binname
  binname-IsValid b v =
      maybe-IsValid b _ S.current_exe v
        (λ exe. maybe-IsValid b _ (S.file_name exe) v (λ n. add_name-IsValid b n v))

  homeconfig-IsValid : (b : ConfigFileBuilder) → IsValid b → IsValid (add_homeconfig S b)
  unfolding add_homeconfig
  homeconfig-IsValid b v = maybe-IsValid b _ S.config_dir v (λ dir. add_path-IsValid b dir v)

  cwd-IsValid : (b : ConfigFileBuilder) → IsValid b → IsValid (add_cwd S b)
  unfolding add_cwd
  cwd-IsValid b v = maybe-IsValid b _ S.current_dir v (λ dir. add_path-IsValid b dir v)

  envname-IsValid :
      (b : ConfigFileBuilder) (n env : String) → IsValid b → IsValid (add_envname S b n env)
  unfolding add_envname
  envname-IsValid b n env v = maybe-IsValid b _ (S.var env) v (λ value. add_name-IsValid b _ v)

  apply-IsValid : (b : ConfigFileBuilder) (c : Call) → IsValid b → IsValid (apply b c)
  unfolding apply
  apply-IsValid b (name n) v = add_name-IsValid b n v
  apply-IsValid b (envname n env) v = envname-IsValid b n env v
  apply-IsValid b binname v = binname-IsValid b v
  apply-IsValid b homeconfig v = homeconfig-IsValid b v
  apply-IsValid b cwd v = cwd-IsValid b v
  apply-IsValid b binpath v = binpath-IsValid b v
  apply-IsValid b (path p) v = add_path-IsValid b p v
  apply-IsValid b (file f) v = add_file-IsValid b f v

  pub apply_all-IsValid :
      (b : ConfigFileBuilder) (cs : List Call) → IsValid b → IsValid (apply_all b cs)
  unfolding apply_all
  apply_all-IsValid b [] v = v
  apply_all-IsValid b (c ∷ cs) v = apply_all-IsValid (apply b c) cs (apply-IsValid b c v)

  -- Whatever calls add to a builder that is new or is the default one: no name, path or file stands twice,
  -- the paths are directories, and the files are files with a name.
  pub builder-IsValid :
      (cs : List Call) → IsValid (apply_all new cs) × IsValid (apply_all (default S) cs)
  unfolding new default
  builder-IsValid cs =
      let empty : IsValid new = (tt, (tt, λ p m. absurd m), (tt, λ f m. absurd m)) in
      let at_paths = binpath-IsValid _ (cwd-IsValid _ (homeconfig-IsValid _ empty)) in
      (
        apply_all-IsValid new cs empty,
        apply_all-IsValid (default S) cs
            (envname-IsValid _ _ _ (binname-IsValid _ (add_name-IsValid _ _ at_paths))),
      )
