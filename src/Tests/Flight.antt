-- ===== src/Tests/Flight.antt =====
-- Runs of a group of calls, and its theorems at them.
use kaze.Base.{ℕ, ◌≡◌, ◌≢◌, refl, arith, List, [], ◌∷◌, All, some, ok}
use kaze.Flight.{Event, go_on, cancel, step, run, start, leading, waiting, shared, lead}
use kaze.Flight.Single.{one_leader}
use kaze.Flight.Waiting.{caller, shared_value}
use kaze.Flight.Race.{two_leaders}

abbrev Ev : Type 0
Ev = Event ℕ ℕ

-- All calls are for the key 5; call 0 leads, and call 1 waits.
abbrev begun : List Ev
begun = go_on 0 (ok 7) ∷ go_on 1 (ok 0) ∷ []

begun_leads : (run begun (start (λ i. 5))).calls 0 ≡ leading 5 0
unfolding run step start lead
begun_leads = refl

begun_waits : (run begun (start (λ i. 5))).calls 1 ≡ waiting 5 0
unfolding run step start lead
begun_waits = refl

-- Meanwhile the key is removed and call 2 leads anew.
abbrev meanwhile : List Ev
meanwhile = go_on 0 (ok 7) ∷ go_on 2 (ok 0) ∷ cancel 2 ∷ []

meanwhile_apart : All (λ e. caller e ≢ 1) meanwhile
meanwhile_apart = (
  (λ e. absurd (omega (arith, e))),
  ((λ e. absurd (omega (arith, e))), ((λ e. absurd (omega (arith, e))), tt)),
)

shared_value_example :
    (step
        (go_on 1 (ok 0))
        (run meanwhile (step (go_on 0 (ok 7)) (run begun (start (λ i. 5)))))).calls
      1
    ≡ shared (some 7)
shared_value_example =
    shared_value (λ i. 5) begun 0 1 5 5 0 (ok 7) (ok 0) meanwhile begun_leads begun_waits
      meanwhile_apart (λ e. cc e)

one_leader_example : (run begun (start (λ i. 5))).calls 1 ≢ leading 5 3
one_leader_example =
    one_leader (λ i. 5) begun 0 1 5 0 3 (tt, (tt, tt)) begun_leads (λ e. absurd (omega (arith, e)))

abbrev race : List Ev
race =
    go_on 0 (ok 7)
    ∷ go_on 1 (ok 7)
    ∷ cancel 0
    ∷ go_on 2 (ok 7)
    ∷ go_on 1 (ok 7)
    ∷ go_on 1 (ok 7)
    ∷ go_on 1 (ok 7)
    ∷ []

two_leaders_example :
    ((run race (start (λ i. 5))).calls 1 ≡ leading 5 2)
    × ((run race (start (λ i. 5))).calls 2 ≡ leading 5 1)
two_leaders_example =
    two_leaders 0 1 2 5 (ok 7) (λ e. absurd (omega (arith, e))) (λ e. absurd (omega (arith, e)))
      (λ e. absurd (omega (arith, e)))
