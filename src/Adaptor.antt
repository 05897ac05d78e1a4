-- ===== src/Adaptor.antt =====
-- crates/kaze-service/src/adaptor.rs: an awaited service as a polled one. The clones of an adaptor
-- share one state, which each call locks; a step is what one of them does under the lock.
pub mod Tasks
pub mod Turns
pub mod Races
use kaze.Base.{
  ℕ, zero, suc, ◌≡◌, List, [], ◌∷◌, ◌++◌, Bool, true, false, if◌then◌else◌, Option, none, some,
  Outcome, ok, err, panic,
}
use kaze.Tower.Future.{Poll, pending, ready}

-- The `ReusableBoxFuture`: the future that never is ready, one that was put in, or one that was ready.
pub data Boxed (F : Type 0) : Type 0 where
  never over : Boxed F
  held : F → Boxed F

-- `SharedState`; a waker is the task that it wakes, and `woken` are the tasks that were.
pub record Shared (F : Type 0) : Type 0 where
  pub in_flight : Bool
  pub waker : Option ℕ
  pub future : Boxed F
  pub woken : List ℕ

unfoldable pub to_wake : Option ℕ → List ℕ
to_wake none = []
to_wake (some t) = t ∷ []

module _ {F : Type 0} where
  unfoldable pub new : Shared F
  new = record { in_flight = false; waker = none; future = never; woken = [] }

  -- `SharedState::set` and `SharedState::reset`
  unfoldable pub set : F → Shared F → Shared F
  set f s = record s { in_flight = true; future = held f }

  unfoldable pub reset : Shared F → Shared F
  unfolding to_wake
  reset s = record s { in_flight = false; waker = none; woken = s.woken ++ to_wake s.waker }

  -- `poll_ready` by a task: whether the adaptor is ready.
  unfoldable pub poll_ready : ℕ → Shared F → Bool × Shared F
  poll_ready task s = if s.in_flight then (false, record s { waker = some task }) else (true, s)

  -- The drop of an `AdaptorFuture`, which resets the state that all clones share whichever of them it is
  -- from, and whether its call has ended or not.
  unfoldable pub drop_future : Shared F → Shared F
  drop_future s = reset (record s { in_flight = false })

module _ {T E R F : Type 0} (serve : T → F) (poll : F → Poll F E R) where
  -- `call`; `none` is its panic.
  unfoldable pub call : T → Shared F → Option (Shared F)
  call req s = let s' = set (serve req) s in if s.in_flight then none else some s'

  polled : Shared F → Poll F E R → Option (Outcome E R) × Shared F
  polled s (pending f) = (none, record s { future = held f })
  polled s (ready r) = (some r, reset (record s { future = over }))

  poll_boxed : Shared F → Boxed F → Option (Outcome E R) × Shared F
  unfolding polled
  poll_boxed s never = (none, s)
  poll_boxed s over = (some panic, s)
  poll_boxed s (held f) = polled s (poll f)

  -- `AdaptorFuture::poll`; `none` is `Poll::Pending`. A future that was ready panics when it is polled again.
  unfoldable pub poll_future : Shared F → Option (Outcome E R) × Shared F
  unfolding poll_boxed
  poll_future s = poll_boxed s s.future

  drive_on :
      (Shared F → Option (Outcome E R) × Shared F)
      → Option (Outcome E R) × Shared F
      → Option (Outcome E R) × Shared F
  drive_on again (none, s) = again s
  drive_on again (some r, s) = (some r, s)

  -- A task polls until the future is ready, at most `n` times after the first.
  unfoldable pub drive : ℕ → Shared F → Option (Outcome E R) × Shared F
  unfolding drive_on
  drive zero s = poll_future s
  drive (suc n) s = drive_on (drive n) (poll_future s)

  dropped : Option (Outcome E R) × Shared F → Option (Outcome E R × Shared F)
  dropped (none, s) = none
  dropped (some r, s) = some (r, drop_future s)

  taken : ℕ → Option (Shared F) → Option (Outcome E R × Shared F)
  unfolding dropped
  taken n none = none
  taken n (some s) = dropped (drive n s)

  -- `ready_call`: the task waits until the adaptor is ready, calls it, polls the future and drops it;
  -- `none` where the adaptor is not ready, or the future is not within `n` polls after the first.
  unfoldable pub ready_call : ℕ → T → ℕ → Shared F → Option (Outcome E R × Shared F)
  unfolding taken
  ready_call task req n s =
      let (is_ready, s') = poll_ready task s in
      let answer = taken n (call req s') in if is_ready then answer else none
