-- ===== src/Tests/Tower.antt =====
-- Runs of the polled combinators over a service that takes two polls, and their theorems at it.
use kaze.Base.{
  ℕ, zero, suc, ◌+◌, ◌≡◌, refl, Bool, if◌then◌else◌, ◌==◌, Outcome, ok, err, ◌>>=◌, Option, none,
  some, List, [], ◌∷◌, ◌++◌,
}
use kaze.Service.{map_err, filter_chain}
use kaze.Service as Awaited
use kaze.Tower.Future.{Poll, pending, ready, Service}
use kaze.Tower.Future.Resolves.{Resolves, Answers}
use kaze.Tower.Filter.{stack, filtered, FilterError}
use kaze.Tower.Filter.Refines.{stack-Answers}
use kaze.Tower.Turn as Turn
use kaze.Tower.Sink.{Sink, send-Resolves}

-- Fails on 0, and else answers with the next number.
abbrev next : ℕ → Outcome ℕ ℕ
next req = if req == 0 then err 404 else ok (req + 1)

-- Filters out 1, fails on 0 and lets the others through.
abbrev pass : ℕ → Outcome ℕ (Option ℕ)
pass req = if req == 1 then ok none else next req >>= λ n. ok (some n)

abbrev count_down : {A : Type 0} → ℕ × Outcome ℕ A → Poll (ℕ × Outcome ℕ A) ℕ A
count_down (zero, r) = ready r
count_down (suc n, r) = pending (n, r)

-- Counts its calls; a future is pending for two polls.
abbrev slow : {A : Type 0} → (ℕ → Outcome ℕ A) → Service ℕ ℕ A
slow {A = A} serve = record {
  State = ℕ;
  Future = ℕ × Outcome ℕ A;
  clone = λ s. s;
  poll_ready = λ s. ready (ok s);
  call = λ s req. ((2, serve req), s + 1);
  poll = count_down;
}

slow-Answers : {A : Type 0} (serve : ℕ → Outcome ℕ A) → Answers (slow serve) serve
slow-Answers serve s req = (2, ((1, serve req), refl, ((0, serve req), refl, refl)))

abbrev same : ℕ → ℕ
same e = e

stack-Answers_example : Answers (stack same (slow pass) (slow pass)) (filter_chain same pass pass)
stack-Answers_example =
    stack-Answers same (slow pass) (slow pass) pass pass (slow-Answers pass) (slow-Answers pass)

abbrev odd_one : ℕ → Bool
odd_one req = req == 1

abbrev third : Option ℕ
third = some 3

-- The second service is reached by 5 and not by 1.
filter_runs : filter_chain same pass pass 5 ≡ ok (some 7)
unfolding filter_chain map_err Awaited.rest
filter_runs = refl

filtered_runs : filter_chain same pass pass 1 ≡ ok none
unfolding filter_chain map_err Awaited.rest
filtered_runs = refl

-- Serves 1 and hands the others back.
abbrev ones : ℕ → Outcome (FilterError ℕ ℕ) ℕ
ones req = if req == 1 then ok 100 else err (filtered req)

abbrev caught : {A : Type 0} → (ℕ → Outcome (FilterError ℕ ℕ) A) → Service ℕ (FilterError ℕ ℕ) A
caught {A = A} serve = record {
  State = Unit {0};
  Future = Outcome (FilterError ℕ ℕ) A;
  clone = λ s. s;
  poll_ready = λ s. ready (ok s);
  call = λ s req. (serve req, s);
  poll = λ r. ready r;
}

abbrev unit : Option (Unit {0})
unit = some tt

abbrev shy_ready : ℕ → Poll ℕ ℕ ℕ
shy_ready zero = ready (ok 0)
shy_ready (suc n) = pending n

-- A service that is ready after as many polls as its state says.
abbrev shy : Service ℕ ℕ ℕ
shy = record (slow next) { poll_ready = shy_ready }

abbrev one : ℕ
one = suc zero

poll_ready_call-Resolves_example : Resolves (Turn.poll_ready_call shy) 3 (Turn.waits 7 one) (ok 8)
poll_ready_call-Resolves_example =
    Turn.poll_ready_call-Resolves shy 1 2 7 one 0 (ok 8) (0, refl, refl)
      ((1, ok 8), refl, ((0, ok 8), refl, refl))

abbrev flush : List ℕ × ℕ → Poll (List ℕ × ℕ) ℕ (Unit {0})
flush (xs, zero) = ready (ok tt)
flush (xs, suc n) = pending (xs, n)

-- A sink that keeps its items, and is flushed after two polls.
abbrev keeping : Sink ℕ ℕ
keeping = record {
  State = List ℕ × ℕ;
  poll_ready = λ s. ready (ok s);
  start_send = λ s x. ok (s.0 ++ (x ∷ []), 2);
  poll_flush = flush;
}

send-Resolves_example :
    Resolves (kaze.Tower.Sink.poll keeping same) 2 (some 5, ([], 0)) (ok tt)
    × (kaze.Tower.Sink.poll keeping same (some 5, ([], 0))
        ≡ kaze.Tower.Sink.poll keeping same (none, (5 ∷ [], 2)))
    × ((a b : List ℕ × ℕ)
        → flush a ≡ pending b
        → kaze.Tower.Sink.poll keeping same (none, a) ≡ pending (none, b))
send-Resolves_example =
    send-Resolves keeping same 5 ([], 0) (5 ∷ [], 2) 2 (ok tt) refl
      ((5 ∷ [], 1), refl, ((5 ∷ [], 0), refl, refl))
