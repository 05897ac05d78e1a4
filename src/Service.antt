-- ===== src/Service.antt =====
-- crates/kaze-service/src/combiner.rs and map.rs: services put together. An `AsyncService` whose `serve` is
-- awaited is a function from requests to outcomes; `Into` between errors is a function.
pub mod Laws
use kaze.Base.{Outcome, ok, err, panic, ◌>>=◌, Option, none, some}

abbrev pub Serve : Type 0 → Type 0 → Type 0 → Type 0
Serve T E R = T → Outcome E R

-- `Result::map_err`
unfoldable pub map_err : {E E' A : Type 0} → (E → E') → Outcome E A → Outcome E' A
map_err into (ok a) = ok a
map_err into (err e) = err (into e)
map_err into panic = panic

unfoldable pub rest : {M E R : Type 0} → Serve M E (Option R) → Option M → Outcome E (Option R)
rest outer none = ok none
rest outer (some result) = outer result

module _ {T M R E E' : Type 0} (into : E → E') where
  -- `Chain::serve`
  unfoldable pub chain : Serve T E M → Serve M E' R → Serve T E' R
  chain inner outer req = map_err into (inner req) >>= λ result. outer result

  -- `FilterChain::serve`
  unfoldable pub filter_chain : Serve T E (Option M) → Serve M E' (Option R) → Serve T E' (Option R)
  unfolding rest
  filter_chain inner outer req = map_err into (inner req) >>= λ result. rest outer result

-- `FilterIdentity::serve`, whose error is `Infallible`.
abbrev pub identity : {T : Type 0} → Serve T ⊥ (Option T)
identity req = ok (some req)

pub data Either (A B : Type 0) : Type 0 where
  left : A → Either A B
  right : B → Either A B

-- `Either::serve`
unfoldable pub either : {T E R : Type 0} → Either (Serve T E R) (Serve T E R) → Serve T E R
either (left a) req = a req
either (right b) req = b req

-- `MapRequest::serve`, `MapResponse::serve` and `MapError::serve`
unfoldable pub map_request : {T M E R : Type 0} → (T → M) → Serve M E R → Serve T E R
map_request f service req = service (f req)

unfoldable pub map_response : {T E R R' : Type 0} → (R → R') → Serve T E R → Serve T E R'
map_response f service req = service req >>= λ r. ok (f r)

unfoldable pub map_error : {T E E' R : Type 0} → (E → E') → Serve T E R → Serve T E' R
map_error f service req = map_err f (service req)
