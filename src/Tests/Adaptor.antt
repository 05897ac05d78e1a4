-- ===== src/Tests/Adaptor.antt =====
-- An adaptor of a service that answers a number with it, after as many polls.
use kaze.Base.{ℕ, List, ◌++◌, arith, zero, suc, ◌≡◌, refl, [], ◌∷◌, true, false, none, some, ok}
use kaze.Tower.Future.{Poll, pending, ready}
use kaze.Adaptor.{
  Shared, never, over, held, poll_ready, poll_future, drop_future, ready_call, to_wake,
}
use kaze.Adaptor.Tasks.{Event, answers, calls, polls, drops, run, tasks_of}
use mathlib.Core.Option.{map}
use kaze.Adaptor.Turns.{ready_call-Resolves}
use kaze.Adaptor.Races.{lost_waker, stale_drop}

-- What is still to poll, and the answer.
abbrev Counting : Type 0
Counting = ℕ × ℕ

abbrev count : Counting → Poll Counting (Unit {0}) ℕ
count (zero, r) = ready (ok r)
count (suc n, r) = pending (n, r)

abbrev start : ℕ → Counting
start n = (n, n)

-- A request is what is still to poll, and the answer.
abbrev at_once : Counting → Counting
at_once req = req

abbrev idle : Shared Counting
idle = record { in_flight = false; waker = none; future = never; woken = [] }

abbrev busy : Shared Counting
busy = record { in_flight = true; waker = none; future = held (0, 7); woken = [] }

ready_call-Resolves_example :
    ready_call start count 1 2 2 idle
    ≡ some (ok 2, record { in_flight = false; waker = none; future = over; woken = [] })
unfolding to_wake
ready_call-Resolves_example =
    ready_call-Resolves start count 1 2 2 idle (ok 2) refl ((1, 2), refl, ((0, 2), refl, refl))

lost_waker_example :
    let s' = (poll_ready 2 (poll_ready 1 busy).1).1 in
    let t = drop_future (poll_future start count s').1 in
    (t.woken ≡ 2 ∷ []) × (t.waker ≡ none) × (t.in_flight ≡ false)
lost_waker_example = lost_waker start count 1 2 busy (0, 7) (ok 7) refl refl refl

-- Tasks 0, 1 and 2, with requests that are ready at once.
stale_drop_example :
    let begun : List (Event Counting) = calls 0 (0, 5) ∷ polls 0 ∷ calls 1 (3, 6) ∷ [] in
    (run at_once count (begun ++ (calls 2 (0, 7) ∷ [])) (tasks_of idle) ≡ none)
    × (map
          (answers 0 1)
          (run at_once count (begun ++ (drops 0 ∷ calls 2 (0, 7) ∷ polls 1 ∷ [])) (tasks_of idle))
        ≡ some (some (ok 5), some (ok 7)))
stale_drop_example =
    stale_drop at_once count 0 1 2 (0, 5) (3, 6) (0, 7) idle (ok 5) (ok 7)
      (λ e. absurd (omega (arith, e))) (λ e. absurd (omega (arith, e)))
      (λ e. absurd (omega (arith, e))) refl refl refl
