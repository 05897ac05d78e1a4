-- ===== src/Service/Laws.antt =====
-- Services compose like functions that may fail.
use kaze.Base.{◌≡◌, refl, sym, ap, Outcome, ok, err, panic, ◌>>=◌, Option, none, some}
use kaze.Service.{Serve, map_err, chain, filter_chain, identity, rest, map_request, map_response}

module _ {T M N R E1 E2 E3 : Type 0} (i12 : E1 → E2) (i23 : E2 → E3) (i13 : E1 → E3) where
  -- Services may be chained from either end, if the conversions of errors agree.
  pub chain_assoc :
      ((e : E1) → i13 e ≡ i23 (i12 e))
      → (f : Serve T E1 M) (g : Serve M E2 N) (h : Serve N E3 R) (req : T)
      → chain i23 (chain i12 f g) h req ≡ chain i13 f (chain i23 g h) req
  unfolding chain map_err
  chain_assoc agree f g h req = go (f req)
    where
      go :
          (r : Outcome E1 M)
          → (map_err i23 (map_err i12 r >>= λ m. g m) >>= λ n. h n)
            ≡ (map_err i13 r >>= λ m. map_err i23 (g m) >>= λ n. h n)
      go (ok m) = refl
      go (err e) = ap (λ x. err x) (sym (agree e))
      go panic = refl

  -- Filters may be chained from either end, if the conversions of errors agree: a request goes
  -- through them in order, and stops at the first that filters it out or fails.
  pub filter_chain_assoc :
      ((e : E1) → i13 e ≡ i23 (i12 e))
      → (f : Serve T E1 (Option M)) (g : Serve M E2 (Option N)) (h : Serve N E3 (Option R))
        (req : T)
      → filter_chain i23 (filter_chain i12 f g) h req
        ≡ filter_chain i13 f (filter_chain i23 g h) req
  unfolding filter_chain map_err rest
  filter_chain_assoc agree f g h req = go (f req)
    where
      go :
          (r : Outcome E1 (Option M))
          → (map_err i23 (map_err i12 r >>= λ m. rest g m) >>= λ n. rest h n)
            ≡ (map_err i13 r >>= λ m. rest (filter_chain i23 g h) m)
      go (ok none) = refl
      go (ok (some m)) = refl
      go (err e) = ap (λ x. err x) (sym (agree e))
      go panic = refl

-- A chain of filters that starts with the identity filter is the chain without it.
pub filter_chain-identity :
    {T R E : Type 0} (into : ⊥ → E) (f : Serve T E (Option R)) (req : T)
    → filter_chain into identity f req ≡ f req
unfolding filter_chain map_err rest
filter_chain-identity into f req = refl

module _ {T M N R E E' : Type 0} (into : E → E') where
  -- A map between two chained services may belong to the response of the first or to the request of the
  -- second.
  pub chain-map_response :
      (f : M → N) (inner : Serve T E M) (outer : Serve N E' R) (req : T)
      → chain into (map_response f inner) outer req ≡ chain into inner (map_request f outer) req
  unfolding chain map_err map_response map_request
  chain-map_response f inner outer req = go (inner req)
    where
      go :
          (r : Outcome E M)
          → (map_err into (r >>= λ m. ok (f m)) >>= λ n. outer n)
            ≡ (map_err into r >>= λ m. outer (f m))
      go (ok m) = refl
      go (err e) = refl
      go panic = refl
