-- ===== src/Tower/Chain/Refines.antt =====
-- The polled chain does what the awaited one of `kaze-service` says.
use kaze.Base.{ℕ, ◌≡◌, refl, Outcome, ok, err, panic, ◌>>=◌}
use kaze.Service.{map_err}
use kaze.Service as Awaited
use kaze.Tower.Future.{pending, ready, Service}
use kaze.Tower.Future.Resolves.{Resolves, Answers, goes_through, same_poll}
use kaze.Tower.Chain.{waiting_inner, waiting_outer, of_inner, of_outer, poll, call, chain}

module _ {T M R E E' : Type 0} (into : E → E') (F : Service T E M) (S : Service M E' R) where
  inner_waits :
      (s : S.State) (a a' : F.Future)
      → F.poll a ≡ pending a'
      → poll into F S (waiting_inner a s) ≡ pending (waiting_inner a' s)
  unfolding poll of_inner
  inner_waits s a a' e = rw e refl

  outer-Resolves :
      (n : ℕ) (sf : S.Future) (r : Outcome E' R)
      → Resolves S.poll n sf r
      → (k : ℕ) × Resolves (poll into F S) k (waiting_outer sf) r
  unfolding poll of_outer
  outer-Resolves n sf r h =
      goes_through S.poll (poll into F S) (λ x. waiting_outer x) (λ a a' e. rw e refl) r r
        (λ a e. (0, rw e refl)) n sf h

  -- What a request comes to that the first service answers with `r`.
  after_inner :
      (g : M → Outcome E' R)
      → Answers S g
      → (r : Outcome E M) (s : S.State) (ff : F.Future) → F.poll ff ≡ ready r
      → (k : ℕ) × Resolves (poll into F S) k (waiting_inner ff s) (map_err into r >>= λ m. g m)
  unfolding poll of_inner map_err
  after_inner g answers (ok m) s ff e =
      let (n, h) = answers s m in
      let (k, h') = outer-Resolves n _ _ h in
      (k, same_poll (poll into F S) k _ (waiting_outer (S.call s m).0) _ (rw e refl) h')
  after_inner g answers (err x) s ff e = (0, rw e refl)
  after_inner g answers panic s ff e = (0, rw e refl)

  -- A chain of two services that answer every request in the end answers every request in the
  -- end, with what the awaited `Chain` of the two says.
  pub chain-Answers :
      (f : T → Outcome E M) (g : M → Outcome E' R)
      → Answers F f
      → Answers S g
      → Answers (chain into F S) (Awaited.chain into f g)
  unfolding Awaited.chain call
  chain-Answers f g hf hg (s, t) req =
      let (n, h) = hf s req in
      goes_through F.poll (poll into F S) (λ x. waiting_inner x t) (inner_waits t) (f req) _
        (after_inner g hg (f req) t) n (F.call s req).0 h
