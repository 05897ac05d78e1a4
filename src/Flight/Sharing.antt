-- ===== src/Flight/Sharing.antt =====
-- What the leader's work came to is what all who wait for it get.
use kaze.Base.{
  ℕ, ◌<◌, ◌≡◌, ◌≢◌, refl, ap, ◌∙◌, arith, List, [], ◌∷◌, Bool, true, false, if◌then◌else◌, ◌==◌,
  Option, none, some, Outcome, ok, err, panic,
}
use kaze.Flight.{
  State, starting, leader_dropped, done, Call, entering, leading, finished, waiting, retrying, led,
  shared, dropped, with_entry, Group, with_call, lead, occupied, entered, finish, publish,
  drop_leader, woken, removed, advance, cancelled, Event, go_on, cancel, step, run, value_of,
  dropped_state,
}

value-with_entry :
    {V : Type 0} (n : ℕ) (v : Option V) (channels : ℕ → State V) (i : ℕ) (s : State V)
    → i ≢ n
    → channels n ≡ done v
    → with_entry channels i s n ≡ done v
value-with_entry n v channels i s apart e = ground (arith, e)

module _ {V E : Type 0} where
  -- The channel has its value for good: no call leads with it.
  pub record Settled (g : Group V E) (n : ℕ) (v : Option V) : Type 0 where
    pub value : g.channels n ≡ done v
    pub no_leader : (c k : ℕ) → g.calls c ≢ leading k n
    pub made : n < g.next

  module _ (n : ℕ) (v : Option V) where
    no_leader-with_entry :
        (calls : ℕ → Call V E) (c : ℕ) (s : Call V E)
        → ((k : ℕ) → s ≢ leading k n)
        → ((c k : ℕ) → calls c ≢ leading k n)
        → (c' k : ℕ) → with_entry calls c s c' ≢ leading k n
    no_leader-with_entry calls c s new old c' k = pick (c' == c)
      where
        pick : (b : Bool) → (if b then s else calls c') ≢ leading k n
        pick true = new k
        pick false = old c' k

    with_call-Settled :
        (g : Group V E) (c : ℕ) (s : Call V E)
        → ((k : ℕ) → s ≢ leading k n)
        → Settled g n v
        → Settled (with_call g c s) n v
    with_call-Settled g c s new h = record {
      value = h.value;
      no_leader = no_leader-with_entry g.calls c s new h.no_leader;
      made = h.made;
    }

    lead-Settled : (g : Group V E) (c k : ℕ) → Settled g n v → Settled (lead g c k) n v
    unfolding lead
    lead-Settled g c k h = record {
      value =
          value-with_entry n v g.channels g.next starting (let m = h.made in omega arith) h.value;
      no_leader =
          no_leader-with_entry g.calls c (leading k g.next)
            (λ k' e. let same : g.next ≡ n = cc e in let m = h.made in absurd (omega arith))
            h.no_leader;
      made = let m = h.made in omega arith;
    }

    removed-Settled :
        (g : Group V E) (k : ℕ) (s : Call V E) (c : ℕ)
        → ((k : ℕ) → s ≢ leading k n)
        → Settled g n v
        → Settled (removed g k s c) n v
    removed-Settled g k s c new h = record {
      value = h.value;
      no_leader = no_leader-with_entry g.calls c s new h.no_leader;
      made = h.made;
    }

    -- A leader of another channel changes only that.
    other_channel : (g : Group V E) (c k n' : ℕ) → g.calls c ≡ leading k n' → Settled g n v → n' ≢ n
    other_channel g c k n' at h e = h.no_leader c k (at ∙ ap (leading k) e)

    drop_leader-Settled :
        (g : Group V E) (c k n' : ℕ)
        → g.calls c ≡ leading k n'
        → Settled g n v
        → Settled (drop_leader g c n') n v
    unfolding drop_leader
    drop_leader-Settled g c k n' at h = record {
      value =
          value-with_entry n v g.channels n' (dropped_state (g.channels n'))
            (other_channel g c k n' at h) h.value;
      no_leader = no_leader-with_entry g.calls c dropped (λ k' e. cc e) h.no_leader;
      made = h.made;
    }

    publish-Settled :
        (g : Group V E) (c k n' : ℕ) (r : Outcome E V)
        → g.calls c ≡ leading k n'
        → Settled g n v
        → Settled (publish g c k n' r) n v
    publish-Settled g c k n' r at h = record {
      value =
          value-with_entry n v g.channels n' (done (value_of r)) (other_channel g c k n' at h)
            h.value;
      no_leader = no_leader-with_entry g.calls c (finished k r) (λ k' e. cc e) h.no_leader;
      made = h.made;
    }

    finish-Settled :
        (g : Group V E) (c k n' : ℕ) (r : Outcome E V)
        → g.calls c ≡ leading k n'
        → Settled g n v
        → Settled (finish g c k n' r) n v
    unfolding finish
    finish-Settled g c k n' (ok w) at h = publish-Settled g c k n' (ok w) at h
    finish-Settled g c k n' (err e) at h = publish-Settled g c k n' (err e) at h
    finish-Settled g c k n' panic at h = drop_leader-Settled g c k n' at h

    occupied-Settled :
        (g : Group V E) (c k n' : ℕ) (s : State V)
        → Settled g n v
        → Settled (occupied g c k n' s) n v
    unfolding occupied
    occupied-Settled g c k n' starting h = with_call-Settled g c (waiting k n') (λ k' e. cc e) h
    occupied-Settled g c k n' leader_dropped h = lead-Settled g c k h
    occupied-Settled g c k n' (done w) h = with_call-Settled g c (shared w) (λ k' e. cc e) h

    entered-Settled :
        (g : Group V E) (c k : ℕ) (o : Option ℕ) → Settled g n v → Settled (entered g c k o) n v
    unfolding entered
    entered-Settled g c k none h = lead-Settled g c k h
    entered-Settled g c k (some n') h = occupied-Settled g c k n' (g.channels n') h

    woken-Settled :
        (g : Group V E) (c k n' : ℕ) (s : State V) → Settled g n v → Settled (woken g c k n' s) n v
    unfolding woken
    woken-Settled g c k n' starting h = h
    woken-Settled g c k n' leader_dropped h = with_call-Settled g c (retrying k) (λ k' e. cc e) h
    woken-Settled g c k n' (done w) h = with_call-Settled g c (shared w) (λ k' e. cc e) h

    advance-Settled :
        (g : Group V E) (c : ℕ) (r : Outcome E V) (s : Call V E)
        → g.calls c ≡ s
        → Settled g n v
        → Settled (advance g c r s) n v
    unfolding advance
    advance-Settled g c r (entering k) at h = entered-Settled g c k (g.m k) h
    advance-Settled g c r (leading k n') at h = finish-Settled g c k n' r at h
    advance-Settled g c r (finished k r') at h = removed-Settled g k (led r') c (λ k' e. cc e) h
    advance-Settled g c r (waiting k n') at h = woken-Settled g c k n' (g.channels n') h
    advance-Settled g c r (retrying k) at h = removed-Settled g k (entering k) c (λ k' e. cc e) h
    advance-Settled g c r (led r') at h = h
    advance-Settled g c r (shared w) at h = h
    advance-Settled g c r dropped at h = h

    cancelled-Settled :
        (g : Group V E) (c : ℕ) (s : Call V E)
        → g.calls c ≡ s
        → Settled g n v
        → Settled (cancelled g c s) n v
    unfolding cancelled
    cancelled-Settled g c (entering k) at h = h
    cancelled-Settled g c (leading k n') at h = drop_leader-Settled g c k n' at h
    cancelled-Settled g c (finished k r') at h = h
    cancelled-Settled g c (waiting k n') at h = with_call-Settled g c dropped (λ k' e. cc e) h
    cancelled-Settled g c (retrying k) at h = h
    cancelled-Settled g c (led r') at h = h
    cancelled-Settled g c (shared w) at h = h
    cancelled-Settled g c dropped at h = h

    step-Settled : (e : Event V E) (g : Group V E) → Settled g n v → Settled (step e g) n v
    unfolding step
    step-Settled (go_on c r) g h = advance-Settled g c r (g.calls c) refl h
    step-Settled (cancel c) g h = cancelled-Settled g c (g.calls c) refl h

    pub run-Settled :
        (es : List (Event V E)) (g : Group V E) → Settled g n v → Settled (run es g) n v
    unfolding run
    run-Settled [] g h = h
    run-Settled (e ∷ es) g h = run-Settled es (step e g) (step-Settled e g h)
