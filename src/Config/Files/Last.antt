-- ===== src/Config/Files/Last.antt =====
-- Which file decides about a name of the configuration.
use Prim.Native.String.{String}
use kaze.Base.{◌≡◌, sym, ap, ◌∙◌, subst, List, [], ◌∷◌, ◌++◌, none, some, ok, bind_ok}
use kaze.Extern.Map.{In}
use kaze.Config.Value.{Value, Table, table, end, get}
use kaze.Config.Merge.Tables.{merge_lookup}
use kaze.Config.Merge.Types.{SameType, IsPlain}
use kaze.Config.Files.{System, ConfigFileBuilder, load, load_files, build}
use kaze.Config.Files.Order.{sources, load_files-append, build-sources}
use kaze.Config.Files.Contents.{
  Parses, Has, load-Loaded, Finds, Under-new, load_files_table, load_files-SameType,
  load_files_absent,
}

module _ {Io Toml : Type 0} (S : System Io Toml) (parses : Parses S) where
  Has-same : (f : String) (t u : Table) → Has S f t → Has S f u → t ≡ u
  Has-same f t u (c, r, p) (c', r', p') = let same : c ≡ c' = cc (r, r') in cc (p, p', same)

  -- The table after the files up to one, and what comes of the others from there.
  After : List String → String → Value → Value → Type 0
  After ys k x r =
      (t : Table) × (w : Value) × (get k t ≡ some w)
      × SameType w x
      × (IsPlain x → w ≡ x)
      × (load_files S (table t) ys ≡ ok r)

  build-After :
      (b : ConfigFileBuilder) (xs ys : List String) (f : String) (u : Table) (k : String)
      (x r : Value)
      → sources S b ≡ xs ++ (f ∷ ys)
      → Has S f u
      → get k u ≡ some x
      → build S b ≡ ok r
      → After ys k x r
  unfolding load_files After
  build-After b xs ys f u k x r e has g h =
      let all : load_files S (table end) (xs ++ (f ∷ ys)) ≡ ok r =
        ap (load_files S (table end)) (sym e) ∙ sym (build-sources S b) ∙ h in
      let (v, first, rest) =
        bind_ok (load_files S (table end) xs) _ r
          (sym (load_files-append S (table end) xs (f ∷ ys)) ∙ all) in
      let (t, is) = load_files_table S parses end xs v first in
      let (v', l, rest') = bind_ok (load S v f) _ r rest in
      let (u', t', has', once, e', m) =
        load-Loaded S parses f t v' (ap (λ z. load S z f) (sym is) ∙ l) in
      let same : get k u' ≡ some x = ap (get k) (Has-same f u' u has' has) ∙ g in
      let (w, g', type, plain) =
        Under-new S k (get k t) (get k t') (get k u') x same (merge_lookup t u' t' [] k once m) in
      (t', w, g', type, plain, subst (λ z. load_files S z ys ≡ ok r) e' rest')

  -- When a configuration is built, and what the parser makes of a file is a table without repeated
  -- names: every value that a file gives to a name has the type that the configuration has under
  -- that name, so that the files that are merged agree about the types of the names that they share.
  pub build-SameType :
      (b : ConfigFileBuilder) (xs ys : List String) (f : String) (u : Table) (k : String)
      (x r : Value)
      → sources S b ≡ xs ++ (f ∷ ys)
      → Has S f u
      → get k u ≡ some x
      → build S b ≡ ok r
      → Finds S r k (λ y. SameType y x)
  unfolding After
  build-SameType b xs ys f u k x r e has g h =
      let (t, w, g', type, plain, rest) = build-After b xs ys f u k x r e has g h in
      let (t', y, e', g'', type') = load_files-SameType S parses k t ys r w rest g' in
      (t', y, e', g'', type' ∙ type)

  -- When a configuration is built, and what the parser makes of a file is a table without repeated
  -- names: where a file gives a name a value that is neither an array nor a table, and no file after
  -- it has the name, the configuration has just this value. The files are those of the paths, in the
  -- order of the paths and at each path of the names, and then those added as files.
  pub build_last :
      (b : ConfigFileBuilder) (xs ys : List String) (f : String) (u : Table) (k : String)
      (x r : Value)
      → sources S b ≡ xs ++ (f ∷ ys)
      → Has S f u
      → get k u ≡ some x
      → IsPlain x
      → ((g : String) (t : Table) → In g ys → Has S g t → get k t ≡ none)
      → build S b ≡ ok r
      → Finds S r k (λ y. y ≡ x)
  unfolding After
  build_last b xs ys f u k x r e has g plain absent h =
      let (t, w, g', type, same, rest) = build-After b xs ys f u k x r e has g h in
      let (t', y, e', g'', is) = load_files_absent S parses k t ys r w rest g' absent in
      (t', y, e', g'', is ∙ same plain)
