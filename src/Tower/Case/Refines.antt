-- ===== src/Tower/Case/Refines.antt =====
-- Which service of a case answers.
use kaze.Base.{ℕ, ◌≡◌, refl, Outcome, ok, err, panic, Option, none, some}
use kaze.Tower.Future.{pending, ready, Service}
use kaze.Tower.Future.Resolves.{Resolves, Answers, goes_through, same_poll}
use kaze.Tower.Filter.{FilterError, filtered, errored}
use kaze.Tower.Case.{service_call, default_call, of_service, of_filtered, of_default, poll, call}

-- The answer of a case whose service answered `r`: a request that it handed back goes on to the
-- default service.
abbrev pub or_default :
    {T R E E' : Type 0} → (E → E') → (T → Outcome E' R) → Outcome (FilterError T E) R → Outcome E' R
or_default into g (ok r) = ok r
or_default into g (err (filtered req)) = g req
or_default into g (err (errored e)) = err (into e)
or_default into g panic = panic

-- The answer of a case, with a service or without one.
abbrev pub case_answer :
    {T R E E' S : Type 0}
    → (E → E')
    → (T → Outcome (FilterError T E) R)
    → (T → Outcome E' R)
    → Option S
    → T
    → Outcome E' R
case_answer into f g none req = g req
case_answer into f g (some s) req = or_default into g (f req)

module _ {T R E E' : Type 0} (into : E → E') (S : Service T (FilterError T E) R)
    (D : Service T E' R) where
  default-Resolves :
      (n : ℕ) (fut : D.Future) (r : Outcome E' R)
      → Resolves D.poll n fut r
      → (k : ℕ) × Resolves (poll into S D) k (default_call fut) r
  unfolding poll of_default
  default-Resolves n fut r h =
      goes_through D.poll (poll into S D) (λ x. default_call x) (λ a a' e. rw e refl) r r
        (λ a e. (0, rw e refl)) n fut h

  service_waits :
      (d : D.State) (a a' : S.Future)
      → S.poll a ≡ pending a'
      → poll into S D (service_call a (some d)) ≡ pending (service_call a' (some d))
  unfolding poll of_service
  service_waits d a a' e = rw e refl

  after_service :
      (g : T → Outcome E' R)
      → Answers D g
      → (r : Outcome (FilterError T E) R) (d : D.State) (fut : S.Future) → S.poll fut ≡ ready r
      → (k : ℕ) × Resolves (poll into S D) k (service_call fut (some d)) (or_default into g r)
  unfolding poll of_service of_filtered
  after_service g answers (ok r) d fut e = (0, rw e refl)
  after_service g answers (err (filtered req)) d fut e =
      let (n, h) = answers d req in
      let (k, h') = default-Resolves n _ _ h in
      (k, same_poll (poll into S D) k _ (default_call (D.call d req).0) _ (rw e refl) h')
  after_service g answers (err (errored x)) d fut e = (0, rw e refl)
  after_service g answers panic d fut e = (0, rw e refl)

  -- A case of two services that answer every request in the end answers every request in the end:
  -- with what its service answers, with what the default service answers to a request that the
  -- service hands back, or, without a service, with what the default service answers.
  pub case-Resolves :
      (f : T → Outcome (FilterError T E) R) (g : T → Outcome E' R)
      → Answers S f
      → Answers D g
      → (s : Option S.State) (d : D.State) (req : T)
      → (k : ℕ) × Resolves
          (poll into S D)
          k
          (call into S D (s, d) req).0
          (case_answer into f g s req)
  unfolding call
  case-Resolves f g hf hg none d req = let (n, h) = hg d req in default-Resolves n _ _ h
  case-Resolves f g hf hg (some s) d req =
      let (n, h) = hf s req in
      goes_through S.poll (poll into S D) (λ x. service_call x (some d)) (service_waits d) (f req) _
        (after_service g hg (f req) d) n (S.call s req).0 h
