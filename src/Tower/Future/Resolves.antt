-- ===== src/Tower/Future/Resolves.antt =====
-- When a future is ready, and with what.
use kaze.Base.{ℕ, zero, suc, ◌≡◌, ◌∙◌, Outcome}
use kaze.Tower.Future.{Poll, pending, ready, Service}

-- The future is pending for `n` polls, and the next one is ready with `r`.
abbrev pub Resolves : {F E A : Type 0} → (F → Poll F E A) → ℕ → F → Outcome E A → Type 0
Resolves poll zero fut r = poll fut ≡ ready r
Resolves {F = F} poll (suc n) fut r =
    (fut' : F) × (poll fut ≡ pending fut') × Resolves poll n fut' r

-- A service that, in every state, answers a request in the end, and with what `serve` says.
abbrev pub Answers : {T E R : Type 0} → Service T E R → (T → Outcome E R) → Type 0
Answers {T = T} S serve =
    (s : S.State) (req : T) → (n : ℕ) × Resolves S.poll n (S.call s req).0 (serve req)

-- A future that goes through another one, polling it until it is ready with `r` and going on from
-- there, resolves when both parts have.
pub goes_through :
    {A F E E' X Y : Type 0} (inner : A → Poll A E X) (outer : F → Poll F E' Y) (wrap : A → F)
    → ((a a' : A) → inner a ≡ pending a' → outer (wrap a) ≡ pending (wrap a'))
    → (r : Outcome E X) (q : Outcome E' Y)
    → ((a : A) → inner a ≡ ready r → (k : ℕ) × Resolves outer k (wrap a) q)
    → (n : ℕ) (a : A) → Resolves inner n a r
    → (k : ℕ) × Resolves outer k (wrap a) q
goes_through inner outer wrap waits r q last zero a e = last a e
goes_through inner outer wrap waits r q last (suc n) a (a', e, rest) =
    let (k, h) = goes_through inner outer wrap waits r q last n a' rest in
    (suc k, (wrap a', waits a a' e, h))

-- When a future resolves depends on what its next poll comes to.
pub same_poll :
    {F E A : Type 0} (poll : F → Poll F E A) (n : ℕ) (a b : F) (r : Outcome E A)
    → poll a ≡ poll b
    → Resolves poll n b r
    → Resolves poll n a r
same_poll poll zero a b r e h = e ∙ h
same_poll poll (suc n) a b r e (b', g, rest) = (b', e ∙ g, rest)
