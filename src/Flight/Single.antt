-- ===== src/Flight/Single.antt =====
-- One work per key, in the runs in which no call is dropped and no work panics.
use kaze.Base.{
  ℕ, ◌≡◌, ◌≢◌, refl, sym, ap, ◌∙◌, List, [], ◌∷◌, All, Option, none, some, Outcome, ok, err, panic,
}
use kaze.Flight.{
  State, starting, leader_dropped, done, Call, entering, leading, finished, waiting, retrying, led,
  shared, dropped, Group, lead, occupied, entered, finish, woken, advance, Event, go_on, cancel,
  step, run, start,
}
use kaze.Flight.Leaders.{LedBy, advance-Led}
use kaze.Flight.Keyed.{Keyed, with_call-Keyed, lead-Keyed, finish-Keyed, removed-Keyed}

abbrev pub IsKept : {V E : Type 0} → Event V E → Type 0
IsKept (go_on c (ok v)) = Unit
IsKept (go_on c (err e)) = Unit
IsKept (go_on c panic) = ⊥
IsKept (cancel c) = ⊥

module _ {V E : Type 0} where
  KeyedBy : Group V E → Type 0
  KeyedBy g = Keyed g.m g.channels g.next g.calls

  occupied-Keyed :
      (g : Group V E) (c k n : ℕ) (s : State V)
      → g.channels n ≡ s
      → KeyedBy g
      → LedBy (occupied g c k n s)
      → KeyedBy (occupied g c k n s)
  unfolding KeyedBy occupied
  occupied-Keyed g c k n starting e h l =
      with_call-Keyed g.m g.channels g.next g.calls h c (waiting k n) (λ _ _ x. cc x)
        (λ _ _ x. cc x) (λ _ x. cc x) l
  occupied-Keyed g c k n leader_dropped e h l = absurd (h.kept n e)
  occupied-Keyed g c k n (done v) e h l =
      with_call-Keyed g.m g.channels g.next g.calls h c (shared v) (λ _ _ x. cc x) (λ _ _ x. cc x)
        (λ _ x. cc x) l

  entered-Keyed :
      (g : Group V E) (c k : ℕ) (o : Option ℕ)
      → g.m k ≡ o
      → KeyedBy g
      → LedBy (entered g c k o)
      → KeyedBy (entered g c k o)
  unfolding KeyedBy entered lead
  entered-Keyed g c k none e h l = lead-Keyed g.m g.channels g.next g.calls h c k e l
  entered-Keyed g c k (some n) e h l = occupied-Keyed g c k n (g.channels n) refl h l

  woken-Keyed :
      (g : Group V E) (c k n : ℕ) (s : State V)
      → g.channels n ≡ s
      → KeyedBy g
      → LedBy (woken g c k n s)
      → KeyedBy (woken g c k n s)
  unfolding KeyedBy woken
  woken-Keyed g c k n starting e h l = h
  woken-Keyed g c k n leader_dropped e h l = absurd (h.kept n e)
  woken-Keyed g c k n (done v) e h l =
      with_call-Keyed g.m g.channels g.next g.calls h c (shared v) (λ _ _ x. cc x) (λ _ _ x. cc x)
        (λ _ x. cc x) l

  finish-KeyedBy :
      (g : Group V E) (c k n : ℕ) (r : Outcome E V)
      → g.calls c ≡ leading k n
      → IsKept (go_on c r)
      → KeyedBy g
      → LedBy (finish g c k n r)
      → KeyedBy (finish g c k n r)
  unfolding KeyedBy finish
  finish-KeyedBy g c k n (ok v) at kept h l =
      finish-Keyed g.m g.channels g.next g.calls h c k n (ok v) (some v) at l
  finish-KeyedBy g c k n (err e) at kept h l =
      finish-Keyed g.m g.channels g.next g.calls h c k n (err e) none at l
  finish-KeyedBy g c k n panic at kept h l = absurd kept

  advance-Keyed :
      (g : Group V E) (c : ℕ) (r : Outcome E V) (s : Call V E)
      → g.calls c ≡ s
      → IsKept (go_on c r)
      → KeyedBy g
      → LedBy (advance g c r s)
      → KeyedBy (advance g c r s)
  unfolding KeyedBy advance
  advance-Keyed g c r (entering k) at kept h l = entered-Keyed g c k (g.m k) refl h l
  advance-Keyed g c r (leading k n) at kept h l = finish-KeyedBy g c k n r at kept h l
  advance-Keyed g c r (finished k r') at kept h l =
      removed-Keyed g.m g.channels g.next g.calls h c k r' (led r') at (λ _ _ x. cc x)
        (λ _ _ x. cc x) (λ _ x. cc x) l
  advance-Keyed g c r (waiting k n) at kept h l = woken-Keyed g c k n (g.channels n) refl h l
  advance-Keyed g c r (retrying k) at kept h l = absurd (h.none_retries c k at)
  advance-Keyed g c r (led r') at kept h l = h
  advance-Keyed g c r (shared v) at kept h l = h
  advance-Keyed g c r dropped at kept h l = h

  run-Keyed :
      (es : List (Event V E)) (g : Group V E) → All IsKept es → KeyedBy g → KeyedBy (run es g)
  unfolding KeyedBy run step
  run-Keyed [] g ks h = h
  run-Keyed (go_on c r ∷ es) g (k, ks) h =
      run-Keyed es (step (go_on c r) g) ks
        (advance-Keyed g c r (g.calls c) refl k h (advance-Led g c r (g.calls c) h.led))
  run-Keyed (cancel c ∷ es) g (k, ks) h = absurd k

  -- Of the calls of a new group that go on in any order, none of them dropped and no work panicking, no
  -- other leads for a key while one does: one work per key is under way.
  pub one_leader :
      (keys : ℕ → ℕ) (es : List (Event V E)) (c c' k n n' : ℕ)
      → All IsKept es
      → (run es (start keys)).calls c ≡ leading k n
      → c ≢ c'
      → (run es (start keys)).calls c' ≢ leading k n'
  unfolding KeyedBy start
  one_leader keys es c c' k n n' ks e d e' =
      let h = run-Keyed es (start keys) ks (record {
        led = record { made = λ c k n e. cc e; sole = λ c c' k k' n e. cc e };
        key_led = λ c k n e. absurd (cc e);
        key_done = λ c k r e. absurd (cc e);
        sole_done = λ c c' k r r' e. absurd (cc e);
        begun = λ c k n e. absurd (cc e);
        kept = λ n e. cc e;
        none_retries = λ c k e. cc e;
        made = λ k n e. absurd (cc e);
      }) in
      let same : some n ≡ some n' = sym (h.key_led c k n e) ∙ h.key_led c' k n' e' in
      let s : n' ≡ n = cc same in d (h.led.sole c c' k k n e (e' ∙ ap (leading k) s))
