-- ===== src/Tower/Turn.antt =====
-- crates/kaze-util/src/tower_ext/mod.rs: calling a service once it is ready, and a service as a filter.
use kaze.Base.{
  ℕ, zero, suc, ◌+◌, ◌≡◌, refl, subst, arith, Outcome, ok, err, panic, ◌>>=◌, Option, some,
}
use kaze.Tower.Future.{Poll, pending, ready, Service}
use kaze.Tower.Future.Resolves.{Resolves, Answers, goes_through, same_poll}

-- `ReadyCall`: it waits with its request, or has called the service.
pub data ReadyCall (T S F : Type 0) : Type 0 where
  waits : T → S → ReadyCall T S F
  called : F → S → ReadyCall T S F

of_called : {T S F E R : Type 0} → S → Poll F E R → Poll (ReadyCall T S F) E R
of_called s (pending fut) = pending (called fut s)
of_called s (ready r) = ready r

-- What is polled once the service was polled ready.
of_ready :
    {T S F E R : Type 0}
    → T
    → (S → Poll (ReadyCall T S F) E R)
    → Poll S E S
    → Poll (ReadyCall T S F) E R
of_ready req go (pending s) = pending (waits req s)
of_ready req go (ready (ok s)) = go s
of_ready req go (ready (err e)) = ready (err e)
of_ready req go (ready panic) = ready panic

filtered : {F E R : Type 0} → Poll F E R → Poll F E (Option R)
filtered (pending fut) = pending fut
filtered (ready r) = ready (r >>= λ a. ok (some a))

module _ {T E R : Type 0} (S : Service T E R) where
  unfoldable pub poll_ready_call :
      ReadyCall T S.State S.Future → Poll (ReadyCall T S.State S.Future) E R
  unfolding of_called of_ready
  poll_ready_call (called fut s) = of_called s (S.poll fut)
  poll_ready_call (waits req s) =
      of_ready req (λ s'. let (fut, s'') = S.call s' req in of_called s'' (S.poll fut))
        (S.poll_ready s)

  -- `ToFilter`
  unfoldable pub poll_filtered : S.Future → Poll S.Future E (Option R)
  unfolding filtered
  poll_filtered fut = filtered (S.poll fut)

  abbrev pub to_filter : Service T E (Option R)
  to_filter = record {
    State = S.State;
    Future = S.Future;
    clone = S.clone;
    poll_ready = S.poll_ready;
    call = S.call;
    poll = poll_filtered;
  }

  -- The service is pending for `n` polls and then ready, in the state `s'`.
  abbrev pub ReadyIn : ℕ → S.State → S.State → Type 0
  ReadyIn zero s s' = S.poll_ready s ≡ ready (ok s')
  ReadyIn (suc n) s s' = (s1 : S.State) × (S.poll_ready s ≡ pending s1) × ReadyIn n s1 s'

  called-Resolves :
      (m : ℕ) (fut : S.Future) (s : S.State) (r : Outcome E R)
      → Resolves S.poll m fut r
      → Resolves poll_ready_call m (called fut s) r
  unfolding poll_ready_call of_called
  called-Resolves zero fut s r h = rw h refl
  called-Resolves (suc m) fut s r (fut', p, h) =
      (called fut' s, rw p refl, called-Resolves m fut' s r h)

  -- A service that is ready after some polls, and then answers a request after some more, is called once it
  -- is ready, and the call is ready with its answer after as many polls together.
  pub poll_ready_call-Resolves :
      (n m : ℕ) (req : T) (s s' : S.State) (r : Outcome E R)
      → ReadyIn n s s'
      → Resolves S.poll m (S.call s' req).0 r
      → Resolves poll_ready_call (n + m) (waits req s) r
  unfolding poll_ready_call of_ready of_called
  poll_ready_call-Resolves zero m req s s' r e h =
      let sum : m ≡ 0 + m = omega arith in
      subst (λ k. Resolves poll_ready_call k (waits req s) r) sum
        (same_poll poll_ready_call m (waits req s) (called (S.call s' req).0 (S.call s' req).1) r
          (rw e refl) (called-Resolves m _ _ r h))
  poll_ready_call-Resolves (suc n) m req s s' r (s1, e, rest) h =
      let sum : suc (n + m) ≡ suc n + m = omega arith in
      subst (λ k. Resolves poll_ready_call k (waits req s) r) sum
        (waits req s1, rw e refl, poll_ready_call-Resolves n m req s1 s' r rest h)

  -- As a filter, a service that answers every request answers it with the same, to be passed on.
  pub to_filter-Answers :
      (serve : T → Outcome E R)
      → Answers S serve
      → Answers to_filter (λ req. serve req >>= λ a. ok (some a))
  unfolding poll_filtered filtered
  to_filter-Answers serve h s req =
      let (n, r) = h s req in
      goes_through S.poll poll_filtered (λ x. x) (λ a a' e. rw e refl) (serve req) _
        (λ a e. (0, rw e refl)) n (S.call s req).0 r
