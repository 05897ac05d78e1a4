-- ===== src/Tower/Filter/Guards.antt =====
-- A service behind a test of its requests, and when a service behind a filter is ready.
use kaze.Base.{◌≡◌, refl, Bool, if◌then◌else◌, Bool-cases, inl, inr, Outcome, ok, err, Option, ◌↔◌}
use kaze.Service.{map_err}
use kaze.Tower.Future.{ready, Service}
use kaze.Tower.Future.Ready.{poll_second_iff}
use kaze.Tower.Future.Resolves.{Answers, goes_through}
use kaze.Tower.Filter.{
  filtered, errored, served, func_filter, func_poll, func_call, of_served, filter_call, poll_ready,
  call,
}

module _ {T E R : Type 0} (test : T → Bool) (S : Service T E R) where
  -- A service behind a test, where the service answers every request in the end, hands back the
  -- requests that fail the test, in the error `Filtered`, and answers the others as it does, its
  -- errors wrapped in `Errored`.
  pub func_filter-Answers :
      (g : T → Outcome E R)
      → Answers S g
      → Answers
          (func_filter test S)
          (λ req. if test req then map_err (λ e. errored e) (g req) else err (filtered req))
  unfolding func_call func_poll of_served
  func_filter-Answers g h s req = elim (Bool-cases (test req)) [
    | inr out ↦ rw out (0, refl)
    | inl pass ↦
        let (n, r) = h s req in
        rw pass (
          goes_through S.poll (func_poll test S) (λ x. served x) (λ a a' e. rw e refl) (g req) _
            (λ a e. (0, rw e refl)) n (S.call s req).0 r)
  ]

module _ {T M R E E' : Type 0} (into : E → E') (F : Service T E (Option M))
    (S : Service M E' R) where
  -- A service behind a filter is ready exactly when both are, in the states that they then have;
  -- and a call takes the service in that state into its future, and leaves a clone of it.
  pub ready_together :
      (f f' : F.State) (s s' : S.State) (req : T)
      → ((poll_ready into F S (f, s) ≡ ready (ok (f', s')))
          ↔ ((F.poll_ready f ≡ ready (ok f')) × (S.poll_ready s ≡ ready (ok s'))))
        × (call into F S (f', s') req
            ≡ (filter_call (F.call f' req).0 s', ((F.call f' req).1, S.clone s')))
  unfolding poll_ready call
  ready_together f f' s s' req = (poll_second_iff into S.poll_ready s (F.poll_ready f) f' s', refl)
