-- ===== src/Adaptor/Races.antt =====
-- Several tasks over the clones of one adaptor.
use kaze.Base.{
  ℕ, ◌≡◌, ◌≢◌, arith, refl, [], ◌∷◌, ◌++◌, append-nil, true, false, none, some, Outcome,
}
use mathlib.Core.Option.{map}
use kaze.Tower.Future.{Poll, ready}
use kaze.Adaptor.{Shared, held, set, reset, poll_ready, call, poll_future, drop_future, to_wake}
use kaze.Adaptor.Tasks.{answers, calls, polls, drops, step, run, tasks_of}

module _ {T E R F : Type 0} (serve : T → F) (poll : F → Poll F E R) where
  -- Two tasks may both find an adaptor ready before either calls it. The second call then panics.
  pub both_ready :
      (a b : ℕ) (req req' : T) (s : Shared F)
      → s.in_flight ≡ false
      → (poll_ready a s ≡ (true, s))
        × (poll_ready b s ≡ (true, s))
        × (call serve poll req s ≡ some (set (serve req) s))
        × (call serve poll req' (set (serve req) s) ≡ none)
  unfolding poll_ready call set
  both_ready a b req req' s idle = (rw idle refl, rw idle refl, rw idle refl, refl)

  -- Of two tasks that wait for an adaptor, its future wakes only the one that asked last when it is ready;
  -- the other is not woken when the drop of the future resets the adaptor, and nothing is left that would.
  pub lost_waker :
      (a b : ℕ) (s : Shared F) (f : F) (r : Outcome E R)
      → s.in_flight ≡ true
      → s.future ≡ held f
      → poll f ≡ ready r
      → let s' = (poll_ready b (poll_ready a s).1).1 in
        let t = drop_future (poll_future serve poll s').1 in
        (t.woken ≡ s.woken ++ (b ∷ [])) × (t.waker ≡ none) × (t.in_flight ≡ false)
  unfolding poll_ready poll_future drop_future reset to_wake
  lost_waker a b s f r busy e p = (simp (busy, e, p, append-nil) refl, refl, refl)

  -- Of three tasks, `i` calls an idle adaptor, and its future is ready when it polls it; `j` then calls the
  -- adaptor. While that call is in flight, a call of `k` panics. When `i` drops its future first, the
  -- call of `k` is let in and takes the place of the one of `j`; where the future of `k` is ready at once,
  -- `j` is answered with what that comes to.
  pub stale_drop :
      (i j k : ℕ) (a b c : T) (s : Shared F) (r r' : Outcome E R)
      → i ≢ j
      → j ≢ k
      → i ≢ k
      → s.in_flight ≡ false
      → poll (serve a) ≡ ready r
      → poll (serve c) ≡ ready r'
      → let begun = calls i a ∷ polls i ∷ calls j b ∷ [] in
        (run serve poll (begun ++ (calls k c ∷ [])) (tasks_of s) ≡ none)
        × (map
              (answers i j)
              (run serve poll (begun ++ (drops i ∷ calls k c ∷ polls j ∷ [])) (tasks_of s))
            ≡ some (some r, some r'))
  unfolding run step poll_future call drop_future reset set to_wake
  stale_drop i j k a b c s r r' ij jk ik idle p p' = (ground arith, ground arith)
