-- ===== src/Tower/Future.antt =====
-- `Future` of the standard library and `tower::Service`: what polling and calling come to.
pub mod Resolves
pub mod Ready
use kaze.Base.{ℕ, Outcome, ok, err, panic}

-- `Poll::Pending`, with what the future is now, or `Poll::Ready`. A future is not polled again
-- once it is ready.
pub data Poll (F E A : Type 0) : Type 0 where
  pending : F → Poll F E A
  ready : Outcome E A → Poll F E A

-- `Clone` is part of the record, as the combinators ask for it.
pub record Service (T E R : Type 0) : Type 1 where
  pub State : Type 0
  pub Future : Type 0
  pub clone : State → State
  -- `ready (ok s)` is `Poll::Ready(Ok(()))` with the state after it.
  pub poll_ready : State → Poll State E State
  pub call : State → T → Future × State
  pub poll : Future → Poll Future E R

with_first : {S1 S2 E : Type 0} → S1 → Poll S2 E S2 → Poll (S1 × S2) E (S1 × S2)
with_first s1 (pending s2) = pending (s1, s2)
with_first s1 (ready (ok s2)) = ready (ok (s1, s2))
with_first s1 (ready (err e)) = ready (err e)
with_first s1 (ready panic) = ready panic

-- `ready!`, then `?` over `Into`: the second service is polled once the first is ready.
unfoldable pub poll_second :
    {S1 S2 E E' : Type 0}
    → (E → E')
    → S2
    → (S2 → Poll S2 E' S2)
    → Poll S1 E S1
    → Poll (S1 × S2) E' (S1 × S2)
unfolding with_first
poll_second into s2 poll (pending s1) = pending (s1, s2)
poll_second into s2 poll (ready (err e)) = ready (err (into e))
poll_second into s2 poll (ready panic) = ready panic
poll_second into s2 poll (ready (ok s1)) = with_first s1 (poll s2)
