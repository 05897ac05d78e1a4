-- ===== src/Tower/Maybe.antt =====
-- crates/kaze-util/src/tower_ext/option.rs: a service that may be missing.
pub mod Refines
use kaze.Base.{Outcome, ok, err, panic, Option, none, some}
use kaze.Tower.Future.{Poll, pending, ready, Service}

pub data OptionFuture (T F : Type 0) : Type 0 where
  future : F → OptionFuture T F
  passed : Option T → OptionFuture T F

module _ {T E : Type 0} (S : Service T E T) where
  of_state : Poll S.State E S.State → Poll (Option S.State) E (Option S.State)
  of_state (pending s) = pending (some s)
  of_state (ready (ok s)) = ready (ok (some s))
  of_state (ready (err e)) = ready (err e)
  of_state (ready panic) = ready panic

  unfoldable pub poll_ready : Option S.State → Poll (Option S.State) E (Option S.State)
  unfolding of_state
  poll_ready none = ready (ok none)
  poll_ready (some s) = of_state (S.poll_ready s)

  unfoldable pub call : Option S.State → T → OptionFuture T S.Future × Option S.State
  call none req = (passed (some req), none)
  call (some s) req = let (fut, s') = S.call s req in (future fut, some s')

  of_future : Poll S.Future E T → Poll (OptionFuture T S.Future) E T
  of_future (pending fut) = pending (future fut)
  of_future (ready r) = ready r

  unfoldable pub poll : OptionFuture T S.Future → Poll (OptionFuture T S.Future) E T
  unfolding of_future
  poll (future fut) = of_future (S.poll fut)
  poll (passed none) = ready panic
  poll (passed (some req)) = ready (ok req)

  unfoldable pub clone : Option S.State → Option S.State
  clone none = none
  clone (some s) = some (S.clone s)

  abbrev pub optional : Service T E T
  optional = record {
    State = Option S.State;
    Future = OptionFuture T S.Future;
    clone = clone;
    poll_ready = poll_ready;
    call = call;
    poll = poll;
  }
