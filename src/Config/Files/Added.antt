-- ===== src/Config/Files/Added.antt =====
-- A string that is added to a list, or moved to its end.
use Prim.Native.String.{String}
use text.Mathlib.Text.{◌==◌ as str_eq}
use text.Mathlib.TextEquality.{eq_iff}
use kaze.Base.{
  ◌≡◌, refl, sym, ◌∙◌, subst, List, [], ◌∷◌, ◌++◌, Bool-cases, Option, none, some, ◌⊎◌, inl, inr,
  ◌↔◌,
}
use kaze.Extern.Map.{In}
use kaze.Config.Files.{take_out}

-- No string stands twice.
abbrev pub Distinct : List String → Type 0
Distinct [] = Unit
Distinct (x ∷ xs) = (¬ In x xs) × Distinct xs

abbrev pub Taken : String → List String → Option (List String) → Type 0
Taken x xs none = ¬ In x xs
Taken x xs (some zs) =
    (Distinct xs → Distinct zs × (¬ In x zs))
    × ((y : String) → In y zs → In y xs)
    × ((y : String) → In y xs → (y ≡ x) ⊎ In y zs)
    × In x xs

pub take_out-Taken : (x : String) (xs : List String) → Taken x xs (take_out x xs)
unfolding take_out
take_out-Taken x [] = λ h. absurd h
take_out-Taken x (y ∷ ys) = elim (Bool-cases (str_eq y x)) [
  | inl same ↦ rw same (first ((eq_iff y x).0 same))
  | inr f ↦ rw f (later (λ e. cc ((eq_iff y x).1 (sym e), f)) (take_out x ys) (take_out-Taken x ys))
]
  where
    first : y ≡ x → Taken x (y ∷ ys) (some ys)
    first e = (
      (λ d. (d.1, subst (λ z. ¬ In z ys) e d.0)),
      (λ z m. inr m),
      (λ z m. elim m [ inl p ↦ inl (p ∙ e) | inr n ↦ inr n ]),
      inl (sym e),
    )

    later :
        ¬ (x ≡ y)
        → (o : Option (List String)) → Taken x ys o
        → Taken x (y ∷ ys) (elim o [ none ↦ none | some zs ↦ some (y ∷ zs) ])
    later ne none t = λ m. elim m [ inl e ↦ ne e | inr n ↦ t n ]
    later ne (some zs) (d, back, on, here) = (
      (λ (absent, ds).
          let (ds', gone) = d ds in
          ((λ m. absent (back y m), ds'), λ m. elim m [ inl e ↦ ne e | inr n ↦ gone n ])),
      (λ z m. elim m [ inl e ↦ inl e | inr n ↦ inr (back z n) ]),
      (λ z m. elim m [
        | inl e ↦ inr (inl e)
        | inr n ↦ elim (on z n) [ inl e ↦ inl e | inr k ↦ inr (inr k) ]
      ]),
      inr here,
    )

In-append_one : (y x : String) (xs : List String) → In y (xs ++ (x ∷ [])) → (y ≡ x) ⊎ In y xs
In-append_one y x [] (inl e) = inl e
In-append_one y x [] (inr m) = absurd m
In-append_one y x (z ∷ zs) (inl e) = inr (inl e)
In-append_one y x (z ∷ zs) (inr m) = elim (In-append_one y x zs m) [
  | inl e ↦ inl e
  | inr n ↦ inr (inr n)
]

In-old : (y x : String) (xs : List String) → In y xs → In y (xs ++ (x ∷ []))
In-old y x [] m = absurd m
In-old y x (z ∷ zs) (inl e) = inl e
In-old y x (z ∷ zs) (inr m) = inr (In-old y x zs m)

In-absent : (x : String) (xs : List String) → In x (xs ++ (x ∷ []))
In-absent x [] = inl refl
In-absent x (z ∷ zs) = inr (In-absent x zs)

Distinct-append_one :
    (x : String) (xs : List String) → Distinct xs → ¬ In x xs → Distinct (xs ++ (x ∷ []))
Distinct-append_one x [] d absent = (λ m. m, tt)
Distinct-append_one x (z ∷ zs) (fresh, d) absent = (
  (λ m. elim (In-append_one z x zs m) [ inl e ↦ absent (inl (sym e)) | inr n ↦ fresh n ]),
  Distinct-append_one x zs d (λ m. absent (inr m)),
)

-- `x` was added to `xs`, or moved to their end: it stands last, and no other string comes or goes.
pub record Added (x : String) (xs ys : List String) : Type 0 where
  pub front : List String
  pub last_lem : ys ≡ front ++ (x ∷ [])
  pub distinct : Distinct xs → Distinct ys
  pub in_iff : (y : String) → In y ys ↔ ((y ≡ x) ⊎ In y xs)

pub added : (x : String) (xs : List String) → ¬ In x xs → Added x xs (xs ++ (x ∷ []))
added x xs absent = record {
  front = xs;
  last_lem = refl;
  distinct = λ d. Distinct-append_one x xs d absent;
  in_iff = λ y. (
    In-append_one y x xs,
    λ m. elim m [
      | inl e ↦ subst (λ z. In z (xs ++ (x ∷ []))) (sym e) (In-absent x xs)
      | inr n ↦ In-old y x xs n
    ],
  );
}

pub moved : (x : String) (xs zs : List String) → Taken x xs (some zs) → Added x xs (zs ++ (x ∷ []))
moved x xs zs (d, back, on, here) = record {
  front = zs;
  last_lem = refl;
  distinct = λ h. let (h', gone) = d h in Distinct-append_one x zs h' gone;
  in_iff = λ y. (
    (λ m. elim (In-append_one y x zs m) [ inl e ↦ inl e | inr n ↦ inr (back y n) ]),
    λ m. elim m [
      | inl e ↦ subst (λ z. In z (zs ++ (x ∷ []))) (sym e) (In-absent x zs)
      | inr n ↦ elim (on y n) [
        | inl e ↦ subst (λ z. In z (zs ++ (x ∷ []))) (sym e) (In-absent x zs)
        | inr k ↦ In-old y x zs k
      ]
    ],
  );
}
