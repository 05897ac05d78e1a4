-- ===== src/Flight/Waiting.antt =====
-- A call that waits for a leader gets what the leader's work came to.
use kaze.Base.{
  ℕ, ◌≡◌, ◌≢◌, refl, sym, ap, ◌∙◌, subst, arith, List, [], ◌∷◌, All, Bool, true, false,
  if◌then◌else◌, ◌==◌, Option, none, some, Outcome, ok, err, panic,
}
use kaze.Flight.{
  State, starting, leader_dropped, done, Call, entering, leading, finished, waiting, retrying, led,
  shared, dropped, with_entry, Group, lead, occupied, entered, finish, publish, drop_leader, woken,
  advance, cancelled, Event, go_on, cancel, step, run, start, value_of,
}
use kaze.Flight.Sharing.{Settled, run-Settled}
use kaze.Flight.Leaders.{Led, run-start-Led}

-- The call that an event is about.
abbrev pub caller : {V E : Type 0} → Event V E → ℕ
caller (go_on c r) = c
caller (cancel c) = c

module _ {V E : Type 0} where
  entry_apart :
      (calls : ℕ → Call V E) (c : ℕ) (s : Call V E) (b : ℕ)
      → c ≢ b
      → with_entry calls c s b ≡ calls b
  entry_apart calls c s b apart = ground arith

  entry_same : (calls : ℕ → Call V E) (c : ℕ) (s : Call V E) → with_entry calls c s c ≡ s
  entry_same calls c s = ground arith

  module _ (b : ℕ) where
    occupied_apart :
        (g : Group V E) (c k n : ℕ) (s : State V) → c ≢ b → (occupied g c k n s).calls b ≡ g.calls b
    unfolding occupied lead
    occupied_apart g c k n starting apart = entry_apart g.calls c (waiting k n) b apart
    occupied_apart g c k n leader_dropped apart = entry_apart g.calls c (leading k g.next) b apart
    occupied_apart g c k n (done v) apart = entry_apart g.calls c (shared v) b apart

    entered_apart :
        (g : Group V E) (c k : ℕ) (o : Option ℕ) → c ≢ b → (entered g c k o).calls b ≡ g.calls b
    unfolding entered lead
    entered_apart g c k none apart = entry_apart g.calls c (leading k g.next) b apart
    entered_apart g c k (some n) apart = occupied_apart g c k n (g.channels n) apart

    finish_apart :
        (g : Group V E) (c k n : ℕ) (r : Outcome E V)
        → c ≢ b
        → (finish g c k n r).calls b ≡ g.calls b
    unfolding finish
    finish_apart g c k n (ok v) apart = entry_apart g.calls c (finished k (ok v)) b apart
    finish_apart g c k n (err e) apart = entry_apart g.calls c (finished k (err e)) b apart
    finish_apart g c k n panic apart = entry_apart g.calls c dropped b apart

    woken_apart :
        (g : Group V E) (c k n : ℕ) (s : State V) → c ≢ b → (woken g c k n s).calls b ≡ g.calls b
    unfolding woken
    woken_apart g c k n starting apart = refl
    woken_apart g c k n leader_dropped apart = entry_apart g.calls c (retrying k) b apart
    woken_apart g c k n (done v) apart = entry_apart g.calls c (shared v) b apart

    advance_apart :
        (g : Group V E) (c : ℕ) (r : Outcome E V) (s : Call V E)
        → c ≢ b
        → (advance g c r s).calls b ≡ g.calls b
    unfolding advance
    advance_apart g c r (entering k) apart = entered_apart g c k (g.m k) apart
    advance_apart g c r (leading k n) apart = finish_apart g c k n r apart
    advance_apart g c r (finished k r') apart = entry_apart g.calls c (led r') b apart
    advance_apart g c r (waiting k n) apart = woken_apart g c k n (g.channels n) apart
    advance_apart g c r (retrying k) apart = entry_apart g.calls c (entering k) b apart
    advance_apart g c r (led r') apart = refl
    advance_apart g c r (shared v) apart = refl
    advance_apart g c r dropped apart = refl

    cancelled_apart :
        (g : Group V E) (c : ℕ) (s : Call V E) → c ≢ b → (cancelled g c s).calls b ≡ g.calls b
    unfolding cancelled drop_leader
    cancelled_apart g c (entering k) apart = refl
    cancelled_apart g c (leading k n) apart = entry_apart g.calls c dropped b apart
    cancelled_apart g c (finished k r') apart = refl
    cancelled_apart g c (waiting k n) apart = entry_apart g.calls c dropped b apart
    cancelled_apart g c (retrying k) apart = refl
    cancelled_apart g c (led r') apart = refl
    cancelled_apart g c (shared v) apart = refl
    cancelled_apart g c dropped apart = refl

    run_apart :
        (es : List (Event V E)) (g : Group V E)
        → All (λ e. caller e ≢ b) es
        → (run es g).calls b ≡ g.calls b
    unfolding run step
    run_apart [] g h = refl
    run_apart (go_on c r ∷ es) g (h, hs) =
        run_apart es (step (go_on c r) g) hs ∙ advance_apart g c r (g.calls c) h
    run_apart (cancel c ∷ es) g (h, hs) =
        run_apart es (step (cancel c) g) hs ∙ cancelled_apart g c (g.calls c) h

  finish_lem :
      (g : Group V E) (a k n : ℕ) (r : Outcome E V)
      → g.calls a ≡ leading k n
      → step (go_on a r) g ≡ finish g a k n r
  unfolding step advance
  finish_lem g a k n r at = ap (advance g a r) at

  publish-Settled :
      (g : Group V E) (a k n : ℕ) (r : Outcome E V)
      → Led g.next g.calls
      → g.calls a ≡ leading k n
      → Settled (publish g a k n r) n (value_of r)
  publish-Settled g a k n r h at = record {
    value = ground arith;
    no_leader = λ c k'. gone c k' (c == a) refl;
    made = h.made a k n at;
  }
    where
      gone :
          (c k' : ℕ) (t : Bool)
          → (c == a) ≡ t
          → (if t then finished k r else g.calls c) ≢ leading k' n
      gone c k' true e f = cc f
      gone c k' false e f = let same = h.sole a c k k' n at f in absurd (ground (arith, e, same))

  finish-Settled :
      (g : Group V E) (a k n : ℕ) (r : Outcome E V)
      → Led g.next g.calls
      → g.calls a ≡ leading k n
      → r ≢ panic
      → Settled (finish g a k n r) n (value_of r)
  unfolding finish
  finish-Settled g a k n (ok v) h at returned = publish-Settled g a k n (ok v) h at
  finish-Settled g a k n (err e) h at returned = publish-Settled g a k n (err e) h at
  finish-Settled g a k n panic h at returned = absurd (returned refl)

  wake_lem :
      (g : Group V E) (b k n : ℕ) (v : Option V) (r : Outcome E V)
      → g.calls b ≡ waiting k n
      → g.channels n ≡ done v
      → (step (go_on b r) g).calls b ≡ shared v
  unfolding step advance woken
  wake_lem g b k n v r at e = rw (at, e) (entry_same g.calls b (shared v))

  -- Once the work of a leader has returned `r`, each call that waits for it returns the value of `r`
  -- when it goes on, whatever other calls do in between: also where the work failed, or the key is
  -- by then under other work. The work did not panic.
  pub shared_value :
      (keys : ℕ → ℕ) (es : List (Event V E)) (a b k k' n : ℕ) (r r' : Outcome E V)
      (later : List (Event V E))
      → (run es (start keys)).calls a ≡ leading k n
      → (run es (start keys)).calls b ≡ waiting k' n
      → All (λ e. caller e ≢ b) later
      → r ≢ panic
      → (step (go_on b r') (run later (step (go_on a r) (run es (start keys))))).calls b
        ≡ shared (value_of r)
  unfolding run
  shared_value keys es a b k k' n r r' later leads waits apart returned =
      let g = run es (start keys) in
      let a_not_b : a ≢ b = λ e. cc (sym leads ∙ ap g.calls e ∙ waits) in
      let settled = run-Settled n (value_of r) later (step (go_on a r) g) (
        subst (λ g'. Settled g' n (value_of r)) (sym (finish_lem g a k n r leads))
          (finish-Settled g a k n r (run-start-Led keys es) leads returned)) in
      wake_lem (run later (step (go_on a r) g)) b k' n (value_of r) r'
        (run_apart b later (step (go_on a r) g) apart
          ∙ run_apart b (go_on a r ∷ []) g (a_not_b, tt)
          ∙ waits)
        settled.value
