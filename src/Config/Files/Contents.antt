-- ===== src/Config/Files/Contents.antt =====
-- What stands in the configuration that some files come to.
use Prim.Native.String.{String}
use kaze.Base.{
  ◌≡◌, refl, ap, ◌∙◌, subst, List, [], ◌∷◌, Option, none, some, Outcome, ok, err, panic, bind_ok,
  inl, inr,
}
use kaze.Extern.Map.{In}
use kaze.Config.Value.{Value, Table, table, end, get}
use kaze.Config.Merge.{Merged, ◌>>=◌ as ◌>>>◌, merge, merge_inner, merge_into_table_inner}
use kaze.Config.Merge.Tables.{DistinctNames, Under, merge_lookup}
use kaze.Config.Merge.Types.{SameType, IsPlain, merge_inner-SameType, merge_inner-plain}
use kaze.Config.Files.{System, BuildError, load, load_files, context, merged}

module _ {Io Toml : Type 0} (S : System Io Toml) where
  -- What a parsed file is: a table without repeated names.
  abbrev pub Parses : Type 0
  Parses =
      (content : String) (v : Value)
      → S.from_str content ≡ ok v
      → (t : Table) × (v ≡ table t) × DistinctNames t

  -- A file is there and has this table in it.
  abbrev pub Has : String → Table → Type 0
  Has file t =
      (content : String) × (S.read_to_string file ≡ ok content)
      × (S.from_str content ≡ ok (table t))

  abbrev pub Loaded : String → Table → Value → Type 0
  Loaded file t r =
      (u : Table) × (t' : Table) × Has file u
      × DistinctNames u
      × (r ≡ table t')
      × (merge_into_table_inner t u [] ≡ Merged.ok t')

  context_ok :
      {A E : Type 0} (f : E → BuildError Io Toml) (o : Outcome E A) (a : A)
      → context S f o ≡ ok a
      → o ≡ ok a
  unfolding context
  context_ok f (ok b) a h = cc h
  context_ok f (err e) a h = cc h
  context_ok f panic a h = cc h

  merged_ok :
      (m : Merged Table) (r : Value)
      → merged S (m >>> λ t. Merged.ok (table t)) ≡ ok r
      → (t : Table) × (r ≡ table t) × (m ≡ Merged.ok t)
  unfolding merged
  merged_ok (Merged.ok t) r h = (t, cc h, refl)
  merged_ok (Merged.err e) r h = cc h

  pub load-Loaded :
      Parses
      → (file : String) (t : Table) (r : Value) → load S (table t) file ≡ ok r
      → Loaded file t r
  unfolding load merge merge_inner
  load-Loaded parses file t r h =
      let (content, c, h') = bind_ok _ _ r h in
      let (v, p, h'') = bind_ok _ _ r h' in
      let read = context_ok _ _ content c in
      let parsed = context_ok _ _ v p in
      let (u, e, once) = parses content v parsed in
      let (t', e', m) =
        merged_ok (merge_into_table_inner t u []) r
          (subst (λ x. merged S (merge_inner (table t) x []) ≡ ok r) e h'') in
      (u, t', (content, read, parsed ∙ ap ok e), once, e', m)

  Under-kept :
      (k : String) (a c x : Option Value) (v : Value)
      → a ≡ some v
      → Under [] k a x c
      → (w : Value) × (c ≡ some w) × SameType w v
  Under-kept k a c none v e h = (v, h ∙ e, refl)
  Under-kept k none c (some inner) v e h = cc e
  Under-kept k (some old) c (some inner) v e (w, m, h) =
      let same : old ≡ v = cc e in
      (
        w,
        h,
        (merge_inner-SameType old inner w (k ∷ []) m).0
            ∙ ap (λ z. kaze.Config.Value.type_str z) same,
      )

  pub Under-new :
      (k : String) (a c x : Option Value) (v : Value)
      → x ≡ some v
      → Under [] k a x c
      → (w : Value) × (c ≡ some w) × SameType w v × (IsPlain v → w ≡ v)
  Under-new k a c none v e h = cc e
  Under-new k none c (some inner) v e h = (v, h ∙ e, refl, λ p. refl)
  Under-new k (some old) c (some inner) v e (w, m, h) =
      let m' = subst (λ z. merge_inner old z (k ∷ []) ≡ Merged.ok w) (cc e) m in
      (
        w,
        h,
        (merge_inner-SameType old v w (k ∷ []) m').1,
        λ p. merge_inner-plain old v w (k ∷ []) m' p,
      )

  -- A value has some type, or is exactly this one.
  abbrev pub Finds : Value → String → (Value → Type 0) → Type 0
  Finds r k P = (t : Table) × (y : Value) × (r ≡ table t) × (get k t ≡ some y) × P y

  module _ (parses : Parses) where
    pub load_files_table :
        (t : Table) (fs : List String) (r : Value)
        → load_files S (table t) fs ≡ ok r
        → (t' : Table) × (r ≡ table t')
    unfolding load_files
    load_files_table t [] r h = (t, cc h)
    load_files_table t (f ∷ fs) r h =
        let (v, l, h') = bind_ok (load S (table t) f) _ r h in
        let (u, t', has, once, e, m) = load-Loaded parses f t v l in
        load_files_table t' fs r (subst (λ z. load_files S z fs ≡ ok r) e h')

    pub load_files-SameType :
        (k : String) (t : Table) (fs : List String) (r x : Value)
        → load_files S (table t) fs ≡ ok r
        → get k t ≡ some x
        → Finds r k (λ y. SameType y x)
    unfolding load_files
    load_files-SameType k t [] r x h g = (t, x, cc h, g, refl)
    load_files-SameType k t (f ∷ fs) r x h g =
        let (v, l, h') = bind_ok (load S (table t) f) _ r h in
        let (u, t', has, once, e, m) = load-Loaded parses f t v l in
        let (w, g', same) =
          Under-kept k (get k t) (get k t') (get k u) x g (merge_lookup t u t' [] k once m) in
        let (t'', y, e', g'', same') =
          load_files-SameType k t' fs r w (subst (λ z. load_files S z fs ≡ ok r) e h') g' in
        (t'', y, e', g'', same' ∙ same)

    pub load_files_absent :
        (k : String) (t : Table) (fs : List String) (r x : Value)
        → load_files S (table t) fs ≡ ok r
        → get k t ≡ some x
        → ((g : String) (u : Table) → In g fs → Has g u → get k u ≡ none)
        → Finds r k (λ y. y ≡ x)
    unfolding load_files
    load_files_absent k t [] r x h g absent = (t, x, cc h, g, refl)
    load_files_absent k t (f ∷ fs) r x h g absent =
        let (v, l, h') = bind_ok (load S (table t) f) _ r h in
        let (u, t', has, once, e, m) = load-Loaded parses f t v l in
        let under =
          subst (λ o. Under [] k (get k t) o (get k t')) (absent f u (inl refl) has)
            (merge_lookup t u t' [] k once m) in
        load_files_absent k t' fs r x (subst (λ z. load_files S z fs ≡ ok r) e h') (under ∙ g)
          (λ g' u' i. absent g' u' (inr i))
