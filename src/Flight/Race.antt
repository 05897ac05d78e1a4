-- ===== src/Flight/Race.antt =====
-- Two works for one key at the same time.
use kaze.Base.{ℕ, ◌≡◌, ◌≢◌, refl, arith, [], ◌∷◌, true, false, ◌==◌, Outcome}
use kaze.Flight.{
  leading, lead, occupied, entered, drop_leader, woken, advance, cancelled, go_on, cancel, step,
  run, start, dropped_state,
}

module _ {V E : Type 0} where
  -- Where the leader of a key is dropped, another call takes over, and a call that waited for the first
  -- finds it dropped only then, that call removes the key of the new leader, and leads as well: both
  -- works for the key are under way.
  pub two_leaders :
      (a b c k : ℕ) (r : Outcome E V)
      → a ≢ b
      → b ≢ c
      → a ≢ c
      → ((run
              (go_on a r
                ∷ go_on b r
                ∷ cancel a
                ∷ go_on c r
                ∷ go_on b r
                ∷ go_on b r
                ∷ go_on b r
                ∷ [])
              (start {V = V} {E = E} (λ i. k))).calls
            b
          ≡ leading k 2)
        × ((run
                (go_on a r
                  ∷ go_on b r
                  ∷ cancel a
                  ∷ go_on c r
                  ∷ go_on b r
                  ∷ go_on b r
                  ∷ go_on b r
                  ∷ [])
                (start {V = V} {E = E} (λ i. k))).calls
              c
            ≡ leading k 1)
  unfolding run step advance entered occupied lead woken cancelled drop_leader dropped_state start
  two_leaders a b c k r ab bc ac =
      let e1 : (b == a) ≡ false = ground arith in
      let e2 : (c == a) ≡ false = ground arith in
      let e3 : (c == b) ≡ false = ground arith in
      let e4 : (b == c) ≡ false = ground arith in
      let e5 : (a == b) ≡ false = ground arith in
      let s1 : (a == a) ≡ true = ground arith in
      let s2 : (b == b) ≡ true = ground arith in
      let s3 : (c == c) ≡ true = ground arith in
      let s4 : (k == k) ≡ true = ground arith in
      (simp (e1, e2, e3, e4, e5, s1, s2, s4) refl, simp (e1, e2, e3, e4, e5, s1, s2, s3, s4) refl)
