-- ===== src/Tower/Maybe/Refines.antt =====
-- What an optional service answers.
use kaze.Base.{ℕ, refl, Outcome, ok, Option, none, some}
use kaze.Tower.Future.{Service}
use kaze.Tower.Future.Resolves.{Resolves, Answers, goes_through}
use kaze.Tower.Maybe.{future, of_future, poll, call}

-- What is answered to a request: by the service, if there is one, and else the request itself.
abbrev pub served_or_passed : {T E S : Type 0} → (T → Outcome E T) → Option S → T → Outcome E T
served_or_passed g none req = ok req
served_or_passed g (some s) req = g req

module _ {T E : Type 0} (S : Service T E T) where
  -- A service that may be missing answers every request in the end, if the service does that may
  -- be there: with its answer, and with the request itself where it is missing.
  pub optional-Answers :
      (g : T → Outcome E T)
      → Answers S g
      → (s : Option S.State) (req : T)
      → (k : ℕ) × Resolves (poll S) k (call S s req).0 (served_or_passed g s req)
  unfolding poll call of_future
  optional-Answers g h none req = (0, refl)
  optional-Answers g h (some s) req =
      let (n, r) = h s req in
      goes_through S.poll (poll S) (λ x. future x) (λ a a' e. rw e refl) (g req) (g req)
        (λ a e. (0, rw e refl)) n (S.call s req).0 r
