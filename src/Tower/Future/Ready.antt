-- ===== src/Tower/Future/Ready.antt =====
-- Two services are polled ready one after the other.
use kaze.Base.{◌≡◌, ap, ok, err, panic, ◌↔◌}
use kaze.Tower.Future.{Poll, pending, ready, poll_second, with_first}

ready_inj : {F E A : Type 0} {a b : A} → ◌≡◌ {A = Poll F E A} (ready (ok a)) (ready (ok b)) → a ≡ b
ready_inj e = cc

module _ {S1 S2 E E' : Type 0} (into : E → E') (poll : S2 → Poll S2 E' S2) where
  with_first_iff :
      (s1 a : S1) (b : S2) (p : Poll S2 E' S2)
      → (with_first s1 p ≡ ready (ok (a, b))) ↔ ((s1 ≡ a) × (p ≡ ready (ok b)))
  unfolding with_first
  with_first_iff s1 a b (pending s2) = ((λ e. cc), (λ h. cc (h.1)))
  with_first_iff s1 a b (ready (err x)) = ((λ e. cc), (λ h. cc (h.1)))
  with_first_iff s1 a b (ready panic) = ((λ e. cc), (λ h. cc (h.1)))
  with_first_iff s1 a b (ready (ok s2)) = (
    (λ e. (
      ap (λ (u : S1 × S2). u.0) (ready_inj {F = S1 × S2} {E = E'} e),
      ap (λ (u : S1 × S2). ready (ok u.1)) (ready_inj {F = S1 × S2} {E = E'} e),
    )),
    λ h. cc (h.0, h.1),
  )

  pub poll_second_iff :
      (s2 : S2) (p : Poll S1 E S1) (a : S1) (b : S2)
      → (poll_second into s2 poll p ≡ ready (ok (a, b)))
        ↔ ((p ≡ ready (ok a)) × (poll s2 ≡ ready (ok b)))
  unfolding poll_second
  poll_second_iff s2 (pending s1) a b = ((λ e. cc), (λ h. cc (h.0)))
  poll_second_iff s2 (ready (err x)) a b = ((λ e. cc), (λ h. cc (h.0)))
  poll_second_iff s2 (ready panic) a b = ((λ e. cc), (λ h. cc (h.0)))
  poll_second_iff s2 (ready (ok s1)) a b =
      let (there, back) = with_first_iff s1 a b (poll s2) in
      (
        (λ e. let (h, k) = there e in (ap (λ x. ready (ok x)) h, k)),
        (λ h. back (ready_inj {F = S1} {E = E} h.0, h.1)),
      )
