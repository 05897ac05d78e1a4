-- ===== src/Flight/Leaders.antt =====
-- No two calls lead with one channel.
use kaze.Base.{
  ℕ, suc, ◌<◌, ◌≡◌, ◌≢◌, sym, ap, ◌∙◌, arith, List, [], ◌∷◌, Bool, true, false, if◌then◌else◌, ◌==◌,
  Option, none, some, Outcome, ok, err, panic, Bool-cases, ◌⊎◌, inl, inr, ==_iff,
}
use kaze.Flight.{
  State, starting, leader_dropped, done, Call, entering, leading, finished, waiting, retrying, led,
  shared, dropped, with_entry, Group, lead, occupied, entered, finish, drop_leader, woken, advance,
  cancelled, Event, go_on, cancel, step, run, start,
}

module _ {V E : Type 0} where
  pub record Led (next : ℕ) (calls : ℕ → Call V E) : Type 0 where
    pub made : (c k n : ℕ) → calls c ≡ leading k n → n < next
    pub sole : (c c' k k' n : ℕ) → calls c ≡ leading k n → calls c' ≡ leading k' n → c ≡ c'

  -- A call that does not lead is in nobody's way.
  old_leader :
      (calls : ℕ → Call V E) (c : ℕ) (s : Call V E)
      → ((k n : ℕ) → s ≢ leading k n)
      → (c' k n : ℕ) → with_entry calls c s c' ≡ leading k n
      → calls c' ≡ leading k n
  old_leader calls c s new c' k n = pick (c' == c)
    where
      pick : (b : Bool) → (if b then s else calls c') ≡ leading k n → calls c' ≡ leading k n
      pick true e = absurd (new k n e)
      pick false e = e

  with_call-Led :
      (next : ℕ) (calls : ℕ → Call V E) (c : ℕ) (s : Call V E)
      → ((k n : ℕ) → s ≢ leading k n)
      → Led next calls
      → Led next (with_entry calls c s)
  with_call-Led next calls c s new h = record {
    made = λ c' k n e. h.made c' k n (old_leader calls c s new c' k n e);
    sole = λ c' c'' k k' n e e'.
        h.sole c' c'' k k' n (old_leader calls c s new c' k n e)
          (old_leader calls c s new c'' k' n e');
  }

  -- A call that leads does so with the new channel, or did so before.
  new_leader :
      (calls : ℕ → Call V E) (c k0 next c' k n : ℕ)
      → with_entry calls c (leading k0 next) c' ≡ leading k n
      → ((c' ≡ c) × (next ≡ n)) ⊎ (calls c' ≡ leading k n)
  new_leader calls c k0 next c' k n e = elim (Bool-cases (c' == c)) [
    | inl t ↦ inl ((==_iff c' c).0 t, same t)
    | inr f ↦ inr (old f)
  ]
    where
      same : (c' == c) ≡ true → next ≡ n
      same t =
          let e' : leading k0 next ≡ leading k n =
            sym (ap (λ b. if b then leading k0 next else calls c') t) ∙ e in
          cc e'

      old : (c' == c) ≡ false → calls c' ≡ leading k n
      old f = sym (ap (λ b. if b then leading k0 next else calls c') f) ∙ e

  lead-Led :
      (next : ℕ) (calls : ℕ → Call V E) (c k : ℕ)
      → Led next calls
      → Led (suc next) (with_entry calls c (leading k next))
  lead-Led next calls c k h = record {
    made = λ c' k' n e. elim (new_leader calls c k next c' k' n e) [
      | inl (_, same) ↦ omega arith
      | inr old ↦ let m = h.made c' k' n old in omega arith
    ];
    sole = λ c' c'' k' k'' n e e'. elim (new_leader calls c k next c' k' n e) [
      | inl (at, same) ↦ elim (new_leader calls c k next c'' k'' n e') [
        | inl (at', _) ↦ at ∙ sym at'
        | inr old' ↦ let m = h.made c'' k'' n old' in absurd (omega arith)
      ]
      | inr old ↦ elim (new_leader calls c k next c'' k'' n e') [
        | inl (at', same') ↦ let m = h.made c' k' n old in absurd (omega arith)
        | inr old' ↦ h.sole c' c'' k' k'' n old old'
      ]
    ];
  }

  abbrev pub LedBy : Group V E → Type 0
  LedBy g = Led g.next g.calls

  occupied-Led : (g : Group V E) (c k n : ℕ) (s : State V) → LedBy g → LedBy (occupied g c k n s)
  unfolding occupied lead
  occupied-Led g c k n starting h = with_call-Led g.next g.calls c (waiting k n) (λ k' n' e. cc e) h
  occupied-Led g c k n leader_dropped h = lead-Led g.next g.calls c k h
  occupied-Led g c k n (done w) h = with_call-Led g.next g.calls c (shared w) (λ k' n' e. cc e) h

  entered-Led : (g : Group V E) (c k : ℕ) (o : Option ℕ) → LedBy g → LedBy (entered g c k o)
  unfolding entered lead
  entered-Led g c k none h = lead-Led g.next g.calls c k h
  entered-Led g c k (some n) h = occupied-Led g c k n (g.channels n) h

  woken-Led : (g : Group V E) (c k n : ℕ) (s : State V) → LedBy g → LedBy (woken g c k n s)
  unfolding woken
  woken-Led g c k n starting h = h
  woken-Led g c k n leader_dropped h =
      with_call-Led g.next g.calls c (retrying k) (λ k' n' e. cc e) h
  woken-Led g c k n (done w) h = with_call-Led g.next g.calls c (shared w) (λ k' n' e. cc e) h

  finish-Led : (g : Group V E) (c k n : ℕ) (r : Outcome E V) → LedBy g → LedBy (finish g c k n r)
  unfolding finish
  finish-Led g c k n (ok v) h =
      with_call-Led g.next g.calls c (finished k (ok v)) (λ k' n' e. cc e) h
  finish-Led g c k n (err x) h =
      with_call-Led g.next g.calls c (finished k (err x)) (λ k' n' e. cc e) h
  finish-Led g c k n panic h = with_call-Led g.next g.calls c dropped (λ k' n' e. cc e) h

  pub advance-Led :
      (g : Group V E) (c : ℕ) (r : Outcome E V) (s : Call V E) → LedBy g → LedBy (advance g c r s)
  unfolding advance
  advance-Led g c r (entering k) h = entered-Led g c k (g.m k) h
  advance-Led g c r (leading k n) h = finish-Led g c k n r h
  advance-Led g c r (finished k r') h = with_call-Led g.next g.calls c (led r') (λ k' n' e. cc e) h
  advance-Led g c r (waiting k n) h = woken-Led g c k n (g.channels n) h
  advance-Led g c r (retrying k) h = with_call-Led g.next g.calls c (entering k) (λ k' n' e. cc e) h
  advance-Led g c r (led r') h = h
  advance-Led g c r (shared w) h = h
  advance-Led g c r dropped h = h

  cancelled-Led : (g : Group V E) (c : ℕ) (s : Call V E) → LedBy g → LedBy (cancelled g c s)
  unfolding cancelled drop_leader
  cancelled-Led g c (entering k) h = h
  cancelled-Led g c (leading k n) h = with_call-Led g.next g.calls c dropped (λ k' n' e. cc e) h
  cancelled-Led g c (finished k r') h = h
  cancelled-Led g c (waiting k n) h = with_call-Led g.next g.calls c dropped (λ k' n' e. cc e) h
  cancelled-Led g c (retrying k) h = h
  cancelled-Led g c (led r') h = h
  cancelled-Led g c (shared w) h = h
  cancelled-Led g c dropped h = h

  run-Led : (es : List (Event V E)) (g : Group V E) → LedBy g → LedBy (run es g)
  unfolding run step
  run-Led [] g h = h
  run-Led (go_on c r ∷ es) g h = run-Led es (step (go_on c r) g) (advance-Led g c r (g.calls c) h)
  run-Led (cancel c ∷ es) g h = run-Led es (step (cancel c) g) (cancelled-Led g c (g.calls c) h)

  -- Whatever calls go on or are dropped in a new group, in whatever order: calls that lead do so with
  -- channels that were made, and no two with the same.
  pub run-start-Led :
      (keys : ℕ → ℕ) (es : List (Event V E))
      → Led (run es (start keys)).next (run es (start keys)).calls
  unfolding start
  run-start-Led keys es =
      run-Led es (start keys) (record { made = λ c k n e. cc e; sole = λ c c' k k' n e. cc e })
