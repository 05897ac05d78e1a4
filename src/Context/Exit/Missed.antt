-- ===== src/Context/Exit/Missed.antt =====
-- When a loop sees that it is told to end.
use kaze.Base.{
  ◌≡◌, refl, subst, sym, ap, ◌∙◌, List, [], ◌∷◌, ◌++◌, append-nil, append_assoc, map, Bool, true,
  false, Outcome, ok,
}
use kaze.Extern.Notify.{NotifyCrate}
use kaze.Context.Exit.{
  selects, left, Event, item, handed, trigger, exits, Running, select, step, step_in, take_item,
  go_on, woken, run, start,
}

-- The events of rounds of a loop, each with an item; in some, `trigger_exiting` is called before the item
-- was handed on.
abbrev pub rounds : {A E : Type 0} → List (Bool × A) → List (Event A E)
rounds [] = []
rounds ((true, a) ∷ rs) = item (ok a) ∷ trigger ∷ handed (ok tt) ∷ rounds rs
rounds ((false, a) ∷ rs) = item (ok a) ∷ handed (ok tt) ∷ rounds rs

abbrev pub items : {A : Type 0} → List (Bool × A) → List A
items rs = map (λ r. r.1) rs

module _ {A E : Type 0} (N : NotifyCrate) where
  record Looping (before : List A) (r : Running A E N) : Type 0 where
    no_permit : N.has_permit r.real_exit ≡ false
    phase_lem : r.phase ≡ selects
    taken_lem : r.taken ≡ before

  one_round :
      (a : A) (before : List A) (r : Running A E N)
      → Looping before r
      → Looping (before ++ (a ∷ [])) (step N (step N r (item (ok a))) (handed (ok tt)))
  unfolding step step_in take_item go_on woken select
  one_round a before r g = record {
    no_permit = rw g.phase_lem g.no_permit;
    phase_lem = rw (g.phase_lem, g.no_permit) refl;
    taken_lem = rw g.phase_lem (ap (λ xs. xs ++ (a ∷ [])) g.taken_lem);
  }

  one_missed :
      (a : A) (before : List A) (r : Running A E N)
      → Looping before r
      → Looping
          (before ++ (a ∷ []))
          (step N (step N (step N r (item (ok a))) trigger) (handed (ok tt)))
  unfolding step step_in take_item go_on woken select
  one_missed a before r g =
      let none_left : N.has_permit (N.notify_waiters r.real_exit) ≡ false =
        N.has_permit-notify_waiters r.real_exit ∙ g.no_permit in
      record {
        no_permit = rw g.phase_lem none_left;
        phase_lem = rw (g.phase_lem, none_left) refl;
        taken_lem = rw g.phase_lem (ap (λ xs. xs ++ (a ∷ [])) g.taken_lem);
      }

  -- The item is taken though a trigger has woken the loop.
  one_raced :
      (a : A) (before : List A) (r : Running A E N)
      → Looping before r
      → Looping
          (before ++ (a ∷ []))
          (step N (step N (step N r trigger) (item (ok a))) (handed (ok tt)))
  unfolding step step_in take_item go_on woken select
  one_raced a before r g =
      let none_left : N.has_permit (N.notify_waiters r.real_exit) ≡ false =
        N.has_permit-notify_waiters r.real_exit ∙ g.no_permit in
      record {
        no_permit = rw g.phase_lem none_left;
        phase_lem = rw (g.phase_lem, none_left) refl;
        taken_lem = rw g.phase_lem (ap (λ xs. xs ++ (a ∷ [])) g.taken_lem);
      }

  rounds_on :
      (rs : List (Bool × A)) (before : List A) (r : Running A E N)
      → Looping before r
      → Looping (before ++ items rs) (run N r (rounds rs))
  unfolding run
  rounds_on [] before r g = subst (λ xs. Looping xs r) (sym (append-nil before)) g
  rounds_on ((true, a) ∷ rs) before r g =
      subst (λ xs. Looping xs (run N r (rounds ((true, a) ∷ rs))))
        (append_assoc before (a ∷ []) (items rs)) (rounds_on rs _ _ (one_missed a before r g))
  rounds_on ((false, a) ∷ rs) before r g =
      subst (λ xs. Looping xs (run N r (rounds ((false, a) ∷ rs))))
        (append_assoc before (a ∷ []) (items rs)) (rounds_on rs _ _ (one_round a before r g))

  started : Looping [] (start {A = A} {E = E} N)
  unfolding start select
  started = record { no_permit = N.fresh_lem; phase_lem = rw N.fresh_lem refl; taken_lem = refl }

  -- A loop whose items are handed on without an error takes them in order, and a call of
  -- `trigger_exiting` that comes while it hands one of them on is lost: however often that happens,
  -- the loop waits for its next item.
  pub run-rounds :
      (rs : List (Bool × A))
      → let r = run N (start {E = E} N) (rounds rs) in (r.phase ≡ selects) × (r.taken ≡ items rs)
  run-rounds rs = let g = rounds_on rs [] (start N) started in (g.phase_lem, g.taken_lem)

  run-append :
      (r : Running A E N) (es es' : List (Event A E)) → run N r (es ++ es') ≡ run N (run N r es) es'
  unfolding run
  run-append r [] es' = refl
  run-append r (e ∷ es) es' = run-append (step N r e) es es'

  stays_left :
      (es : List (Event A E)) (r : Running A E N) (o : Outcome E (Unit {0}))
      → r.phase ≡ left o
      → ((run N r es).phase ≡ left o) × ((run N r es).taken ≡ r.taken)
  unfolding run step step_in woken
  stays_left [] r o h = (h, refl)
  stays_left (e ∷ es) r o h =
      let (p, t) = left_step e in let (p', t') = stays_left es (step N r e) o p in (p', t' ∙ t)
    where
      left_step : (e : Event A E) → ((step N r e).phase ≡ left o) × ((step N r e).taken ≡ r.taken)
      left_step (item x) = rw h (refl, refl)
      left_step (handed x) = rw h (refl, refl)
      left_step trigger = rw h (refl, refl)
      left_step exits = rw h (refl, refl)

  told_ends :
      (r : Running A E N)
      → r.phase ≡ selects
      → ((step N (step N r trigger) exits).phase ≡ left (ok tt))
        × ((step N (step N r trigger) exits).taken ≡ r.taken)
  unfolding step step_in woken
  told_ends r e = rw e (refl, refl)

  -- A call of `trigger_exiting` that comes while a loop waits for its next item: when its `select!`
  -- takes the end of the notification, the loop ends, whatever happens then; it has taken the items
  -- before, in order, and takes no more. When an item is ready by then and its `select!` takes that,
  -- the call is lost: once the item is handed on, the loop waits for its next item.
  pub run-ends :
      (rs : List (Bool × A)) (es : List (Event A E)) (a : A)
      → let r = run N (start {E = E} N) (rounds rs ++ (trigger ∷ exits ∷ es)) in
        let r' =
          run N (start {E = E} N) (rounds rs ++ (trigger ∷ item (ok a) ∷ handed (ok tt) ∷ [])) in
        (r.phase ≡ left (ok tt))
        × (r.taken ≡ items rs)
        × (r'.phase ≡ selects)
        × (r'.taken ≡ items rs ++ (a ∷ []))
  run-ends rs es a =
      let g = rounds_on rs [] (start N) started in
      let r = run N (start N) (rounds rs) in
      let (ended, taken) = told_ends r g.phase_lem in
      let (p, t) = stays_left es (step N (step N r trigger) exits) (ok tt) ended in
      let g' = one_raced a (items rs) r g in
      let e = run-append (start N) (rounds rs) (trigger ∷ exits ∷ es) in
      let e' = run-append (start N) (rounds rs) (trigger ∷ item (ok a) ∷ handed (ok tt) ∷ []) in
      (
        ap (λ q. q.phase) e ∙ unfold run in p,
        ap (λ q. q.taken) e ∙ unfold run in (t ∙ taken ∙ g.taken_lem),
        ap (λ q. q.phase) e' ∙ unfold run in g'.phase_lem,
        ap (λ q. q.taken) e' ∙ unfold run in g'.taken_lem,
      )
