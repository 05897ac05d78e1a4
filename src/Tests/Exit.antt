-- ===== src/Tests/Exit.antt =====
-- A loop of numbers, and a notification that keeps no permit.
use kaze.Base.{ℕ, ◌≡◌, refl, [], ◌∷◌, ◌++◌, true, false, ok}
use kaze.Extern.Notify.{NotifyCrate}
use kaze.Context.Exit.{selects, left, item, handed, trigger, exits, start, run}
use kaze.Context.Exit.Missed.{rounds, run-rounds, run-ends}

abbrev notify : NotifyCrate
notify = record {
  State = ℕ;
  fresh = 0;
  notify_waiters = λ n. n;
  has_permit = λ n. false;
  fresh_lem = refl;
  has_permit-notify_waiters = λ n. refl;
}

run-rounds_example :
    let r =
      run notify
        (start {A = ℕ} {E = Unit {0}} notify)
        (rounds ((false, 4) ∷ (true, 5) ∷ (false, 6) ∷ [])) in
    (r.phase ≡ selects) × (r.taken ≡ 4 ∷ 5 ∷ 6 ∷ [])
run-rounds_example = run-rounds notify ((false, 4) ∷ (true, 5) ∷ (false, 6) ∷ [])

run-ends_example :
    let from = start {A = ℕ} {E = Unit {0}} notify in
    let r = run notify from (rounds ((true, 4) ∷ []) ++ (trigger ∷ exits ∷ item (ok 5) ∷ [])) in
    let r' =
      run notify from (rounds ((true, 4) ∷ []) ++ (trigger ∷ item (ok 6) ∷ handed (ok tt) ∷ [])) in
    (r.phase ≡ left (ok tt)) × (r.taken ≡ 4 ∷ []) × (r'.phase ≡ selects) × (r'.taken ≡ 4 ∷ 6 ∷ [])
run-ends_example = run-ends notify ((true, 4) ∷ []) (item (ok 5) ∷ []) 6
