-- ===== src/Flight/Keyed.antt =====
-- Where no call is dropped, at most one work per key is under way.
use kaze.Base.{
  ℕ, suc, ◌<◌, ◌≡◌, ◌≢◌, refl, sym, ap, ◌∙◌, arith, true, false, if◌then◌else◌, ◌==◌, Option, none,
  some, Outcome, Bool-cases, ◌⊎◌, inl, inr, ==_iff,
}
use kaze.Flight.{
  State, starting, leader_dropped, done, Call, leading, finished, retrying, with_entry,
}
use kaze.Flight.Leaders.{Led}

entry_cases {ℓ} :
    {A : Type ℓ} (f : ℕ → A) (i : ℕ) (a : A) (j : ℕ) (t : A)
    → with_entry f i a j ≡ t
    → ((j ≡ i) × (a ≡ t)) ⊎ ((j ≢ i) × (f j ≡ t))
entry_cases f i a j t e = elim (Bool-cases (j == i)) [
  | inl s ↦ inl ((==_iff j i).0 s, sym (ap (λ b. if b then a else f j) s) ∙ e)
  | inr d ↦ inr ((λ p. absurd (ground (arith, d, p))), sym (ap (λ b. if b then a else f j) d) ∙ e)
]

entry_same {ℓ} : {A : Type ℓ} (f : ℕ → A) (i : ℕ) (a : A) (j : ℕ) → j ≡ i → with_entry f i a j ≡ a
entry_same f i a j e =
    let s : (j == i) ≡ true = ground (arith, e) in ap (λ b. if b then a else f j) s

entry_apart {ℓ} :
    {A : Type ℓ} (f : ℕ → A) (i : ℕ) (a : A) (j : ℕ) → j ≢ i → with_entry f i a j ≡ f j
entry_apart f i a j d =
    let s : (j == i) ≡ false = ground (arith, d) in ap (λ b. if b then a else f j) s

module _ {V E : Type 0} where
  -- The key of a leader is under its channel, which has no value yet; that of a call that is to remove it
  -- is under a channel with a value.
  pub record Keyed (m : ℕ → Option ℕ) (channels : ℕ → State V) (next : ℕ) (calls : ℕ → Call V E)
      : Type 0 where
    pub led : Led next calls
    pub key_led : (c k n : ℕ) → calls c ≡ leading k n → m k ≡ some n
    pub key_done :
        (c k : ℕ) (r : Outcome E V)
        → calls c ≡ finished k r
        → (n : ℕ) × (v : Option V) × (m k ≡ some n) × (channels n ≡ done v)
    pub sole_done :
        (c c' k : ℕ) (r r' : Outcome E V)
        → calls c ≡ finished k r
        → calls c' ≡ finished k r'
        → c ≡ c'
    pub begun : (c k n : ℕ) → calls c ≡ leading k n → channels n ≡ starting
    pub kept : (n : ℕ) → channels n ≢ leader_dropped
    pub none_retries : (c k : ℕ) → calls c ≢ retrying k
    pub made : (k n : ℕ) → m k ≡ some n → n < next

  module _ (m : ℕ → Option ℕ) (channels : ℕ → State V) (next : ℕ) (calls : ℕ → Call V E)
      (h : Keyed m channels next calls) where
    -- No call leads for a key that another is to remove.
    apart :
        (c c' k k' n : ℕ) (r : Outcome E V)
        → calls c ≡ finished k r
        → calls c' ≡ leading k' n
        → k' ≢ k
    apart c c' k k' n r f l e =
        let (n0, v, at, d) = h.key_done c k r f in
        let same : some n0 ≡ some n = sym at ∙ ap m (sym e) ∙ h.key_led c' k' n l in
        let s : n0 ≡ n = cc same in
        let x : done v ≡ starting = sym d ∙ ap channels s ∙ h.begun c' k' n l in cc x

    -- A call that neither leads nor is to remove its key is in nobody's way.
    pub with_call-Keyed :
        (c : ℕ) (s : Call V E)
        → ((k n : ℕ) → s ≢ leading k n)
        → ((k : ℕ) (r : Outcome E V) → s ≢ finished k r)
        → ((k : ℕ) → s ≢ retrying k)
        → Led next (with_entry calls c s)
        → Keyed m channels next (with_entry calls c s)
    with_call-Keyed c s nl nf nr led' = record {
      led = led';
      key_led = λ c' k n e. elim (entry_cases calls c s c' (leading k n) e) [
        | inl (_, x) ↦ absurd (nl k n x)
        | inr (_, old) ↦ h.key_led c' k n old
      ];
      key_done = λ c' k r e. elim (entry_cases calls c s c' (finished k r) e) [
        | inl (_, x) ↦ absurd (nf k r x)
        | inr (_, old) ↦ h.key_done c' k r old
      ];
      sole_done = λ c' c'' k r r' e e'. elim (entry_cases calls c s c' (finished k r) e) [
        | inl (_, x) ↦ absurd (nf k r x)
        | inr (_, old) ↦ elim (entry_cases calls c s c'' (finished k r') e') [
          | inl (_, x) ↦ absurd (nf k r' x)
          | inr (_, old') ↦ h.sole_done c' c'' k r r' old old'
        ]
      ];
      begun = λ c' k n e. elim (entry_cases calls c s c' (leading k n) e) [
        | inl (_, x) ↦ absurd (nl k n x)
        | inr (_, old) ↦ h.begun c' k n old
      ];
      kept = h.kept;
      none_retries = λ c' k e. elim (entry_cases calls c s c' (retrying k) e) [
        | inl (_, x) ↦ nr k x
        | inr (_, old) ↦ h.none_retries c' k old
      ];
      made = h.made;
    }

    pub lead-Keyed :
        (c k : ℕ)
        → m k ≡ none
        → Led (suc next) (with_entry calls c (leading k next))
        → Keyed
            (with_entry m k (some next))
            (with_entry channels next starting)
            (suc next)
            (with_entry calls c (leading k next))
    lead-Keyed c k free led' = record {
      led = led';
      key_led = λ c' k' n e. elim (entry_cases calls c (leading k next) c' (leading k' n) e) [
        | inl (_, x) ↦
            let a : k ≡ k' = cc x in
            let b : next ≡ n = cc x in entry_same m k (some next) k' (sym a) ∙ ap some b
        | inr (_, old) ↦
            let at = h.key_led c' k' n old in
            entry_apart m k (some next) k'
              (λ p. let x : some n ≡ none = sym at ∙ ap m p ∙ free in cc x)
            ∙ at
      ];
      key_done = λ c' k' r e. elim (entry_cases calls c (leading k next) c' (finished k' r) e) [
        | inl (_, x) ↦ absurd (cc x)
        | inr (_, old) ↦
            let (n, v, at, d) = h.key_done c' k' r old in
            let lt = h.made k' n at in
            (
              n,
              v,
              entry_apart m k (some next) k'
                    (λ p. let x : some n ≡ none = sym at ∙ ap m p ∙ free in cc x)
                  ∙ at,
              entry_apart channels next starting n (omega arith) ∙ d,
            )
      ];
      sole_done = λ c' c'' k' r r' e e'.
          elim (entry_cases calls c (leading k next) c' (finished k' r) e) [
            | inl (_, x) ↦ absurd (cc x)
            | inr (_, old) ↦ elim (entry_cases calls c (leading k next) c'' (finished k' r') e') [
              | inl (_, x) ↦ absurd (cc x)
              | inr (_, old') ↦ h.sole_done c' c'' k' r r' old old'
            ]
          ];
      begun = λ c' k' n e. elim (entry_cases calls c (leading k next) c' (leading k' n) e) [
        | inl (_, x) ↦ let b : next ≡ n = cc x in entry_same channels next starting n (sym b)
        | inr (_, old) ↦
            let lt = h.made k' n (h.key_led c' k' n old) in
            entry_apart channels next starting n (omega arith) ∙ h.begun c' k' n old
      ];
      kept = λ n e. elim (entry_cases channels next starting n leader_dropped e) [
        | inl (_, x) ↦ cc x
        | inr (_, old) ↦ h.kept n old
      ];
      none_retries = λ c' k' e. elim (entry_cases calls c (leading k next) c' (retrying k') e) [
        | inl (_, x) ↦ cc x
        | inr (_, old) ↦ h.none_retries c' k' old
      ];
      made = λ k' n e. elim (entry_cases m k (some next) k' (some n) e) [
        | inl (_, x) ↦ let b : next ≡ n = cc x in omega arith
        | inr (_, old) ↦ let lt = h.made k' n old in omega arith
      ];
    }

    pub finish-Keyed :
        (c k n : ℕ) (r : Outcome E V) (w : Option V)
        → calls c ≡ leading k n
        → Led next (with_entry calls c (finished k r))
        → Keyed m (with_entry channels n (done w)) next (with_entry calls c (finished k r))
    finish-Keyed c k n r w at led' = record {
      led = led';
      key_led = λ c' k' n' e. elim (entry_cases calls c (finished k r) c' (leading k' n') e) [
        | inl (_, x) ↦ absurd (cc x)
        | inr (_, old) ↦ h.key_led c' k' n' old
      ];
      key_done = λ c' k' r' e. elim (entry_cases calls c (finished k r) c' (finished k' r') e) [
        | inl (_, x) ↦
            let a : k ≡ k' = cc x in
            (n, w, ap m (sym a) ∙ h.key_led c k n at, entry_same channels n (done w) n refl)
        | inr (_, old) ↦
            let (n', v, at', d) = h.key_done c' k' r' old in
            (
              n',
              v,
              at',
              entry_apart channels n (done w) n' (λ p.
                    let x : done v ≡ starting = sym d ∙ ap channels p ∙ h.begun c k n at in cc x)
                  ∙ d,
            )
      ];
      sole_done = λ c' c'' k' r' r'' e e'.
          elim (entry_cases calls c (finished k r) c' (finished k' r') e) [
            | inl (p, x) ↦ elim (entry_cases calls c (finished k r) c'' (finished k' r'') e') [
              | inl (p', _) ↦ p ∙ sym p'
              | inr (_, old') ↦ let a : k ≡ k' = cc x in absurd (apart c'' c k' k n r'' old' at a)
            ]
            | inr (_, old) ↦ elim (entry_cases calls c (finished k r) c'' (finished k' r'') e') [
              | inl (_, x) ↦ let a : k ≡ k' = cc x in absurd (apart c' c k' k n r' old at a)
              | inr (_, old') ↦ h.sole_done c' c'' k' r' r'' old old'
            ]
          ];
      begun = λ c' k' n' e. elim (entry_cases calls c (finished k r) c' (leading k' n') e) [
        | inl (_, x) ↦ absurd (cc x)
        | inr (d, old) ↦
            entry_apart channels n (done w) n'
              (λ p. d (h.led.sole c' c k' k n (old ∙ ap (leading k') p) at))
            ∙ h.begun c' k' n' old
      ];
      kept = λ n' e. elim (entry_cases channels n (done w) n' leader_dropped e) [
        | inl (_, x) ↦ cc x
        | inr (_, old) ↦ h.kept n' old
      ];
      none_retries = λ c' k' e. elim (entry_cases calls c (finished k r) c' (retrying k') e) [
        | inl (_, x) ↦ cc x
        | inr (_, old) ↦ h.none_retries c' k' old
      ];
      made = h.made;
    }

    pub removed-Keyed :
        (c k : ℕ) (r : Outcome E V) (s : Call V E)
        → calls c ≡ finished k r
        → ((k n : ℕ) → s ≢ leading k n)
        → ((k : ℕ) (r : Outcome E V) → s ≢ finished k r)
        → ((k : ℕ) → s ≢ retrying k)
        → Led next (with_entry calls c s)
        → Keyed (with_entry m k none) channels next (with_entry calls c s)
    removed-Keyed c k r s at nl nf nr led' = record {
      led = led';
      key_led = λ c' k' n e. elim (entry_cases calls c s c' (leading k' n) e) [
        | inl (_, x) ↦ absurd (nl k' n x)
        | inr (_, old) ↦
            entry_apart m k none k' (apart c c' k k' n r at old) ∙ h.key_led c' k' n old
      ];
      key_done = λ c' k' r' e. elim (entry_cases calls c s c' (finished k' r') e) [
        | inl (_, x) ↦ absurd (nf k' r' x)
        | inr (d, old) ↦
            let (n, v, at', dn) = h.key_done c' k' r' old in
            (
              n,
              v,
              entry_apart m k none k'
                    (λ p. d (h.sole_done c' c k r' r (old ∙ ap (λ i. finished i r') p) at))
                  ∙ at',
              dn,
            )
      ];
      sole_done = λ c' c'' k' r' r'' e e'. elim (entry_cases calls c s c' (finished k' r') e) [
        | inl (_, x) ↦ absurd (nf k' r' x)
        | inr (_, old) ↦ elim (entry_cases calls c s c'' (finished k' r'') e') [
          | inl (_, x) ↦ absurd (nf k' r'' x)
          | inr (_, old') ↦ h.sole_done c' c'' k' r' r'' old old'
        ]
      ];
      begun = λ c' k' n e. elim (entry_cases calls c s c' (leading k' n) e) [
        | inl (_, x) ↦ absurd (nl k' n x)
        | inr (_, old) ↦ h.begun c' k' n old
      ];
      kept = h.kept;
      none_retries = λ c' k' e. elim (entry_cases calls c s c' (retrying k') e) [
        | inl (_, x) ↦ nr k' x
        | inr (_, old) ↦ h.none_retries c' k' old
      ];
      made = λ k' n e. elim (entry_cases m k none k' (some n) e) [
        | inl (_, x) ↦ absurd (cc x)
        | inr (_, old) ↦ h.made k' n old
      ];
    }
