-- ===== src/Tower/Filter.antt =====
-- crates/kaze-util/src/tower_ext/filter.rs: a service behind a filter.
pub mod Refines
pub mod Guards
use kaze.Base.{Bool, true, false, if◌then◌else◌, Outcome, ok, err, panic, ◌>>=◌, Option, none, some}
use kaze.Service.{map_err}
use kaze.Tower.Future.{Poll, pending, ready, Service, poll_second}

pub data FilterFuture (FF S SF : Type 0) : Type 0 where
  filter_call : FF → S → FilterFuture FF S SF
  service_call : SF → FilterFuture FF S SF

-- `poll` of `FilterServiceFuture` and of `StackFuture` once the filter's future was polled:
-- `call` calls the second service and `poll_service` polls the future that it makes.
poll_filter :
    {M E E' FF S SF A : Type 0}
    → (E → E')
    → (S → M → SF)
    → (SF → Poll (FilterFuture FF S SF) E' (Option A))
    → S
    → Poll FF E (Option M)
    → Poll (FilterFuture FF S SF) E' (Option A)
poll_filter into call poll_service s (pending fut) = pending (filter_call fut s)
poll_filter into call poll_service s (ready (ok (some req))) = poll_service (call s req)
poll_filter into call poll_service s (ready (ok none)) = ready (ok none)
poll_filter into call poll_service s (ready (err e)) = ready (err (into e))
poll_filter into call poll_service s (ready panic) = ready panic

-- `map(Some)` of what the service's future comes to.
some_of : {FF S SF E A : Type 0} → Poll SF E A → Poll (FilterFuture FF S SF) E (Option A)
some_of (pending sf) = pending (service_call sf)
some_of (ready r) = ready (r >>= λ a. ok (some a))

same_of : {FF S SF E A : Type 0} → Poll SF E A → Poll (FilterFuture FF S SF) E A
same_of (pending sf) = pending (service_call sf)
same_of (ready r) = ready r

module _ {T M R E E' : Type 0} (into : E → E') (F : Service T E (Option M))
    (S : Service M E' R) where
  abbrev pub Fut : Type 0
  Fut = FilterFuture F.Future S.State S.Future

  service_poll : S.Future → Poll Fut E' (Option R)
  unfolding some_of
  service_poll sf = some_of (S.poll sf)

  unfoldable pub poll : Fut → Poll Fut E' (Option R)
  unfolding poll_filter service_poll some_of
  poll (filter_call ff s) = poll_filter into (λ s req. (S.call s req).0) service_poll s (F.poll ff)
  poll (service_call sf) = service_poll sf

  -- The future takes the service that was polled ready, and a clone stays.
  unfoldable pub call : F.State × S.State → T → Fut × (F.State × S.State)
  call (f, s) req = let (ff, f') = F.call f req in (filter_call ff s, (f', S.clone s))

  unfoldable pub poll_ready : F.State × S.State → Poll (F.State × S.State) E' (F.State × S.State)
  poll_ready (f, s) = poll_second into s S.poll_ready (F.poll_ready f)

  abbrev pub filter : Service T E' (Option R)
  filter = record {
    State = F.State × S.State;
    Future = Fut;
    clone = λ s. (F.clone s.0, S.clone s.1);
    poll_ready = poll_ready;
    call = call;
    poll = poll;
  }

-- `Stack`: a filter behind a filter, whose answer is passed on as it is.
module _ {T M R E E' : Type 0} (into : E → E') (F : Service T E (Option M))
    (S : Service M E' (Option R)) where
  stacked_poll : S.Future → Poll (Fut into F S) E' (Option R)
  unfolding same_of
  stacked_poll sf = same_of (S.poll sf)

  unfoldable pub poll_stack : Fut into F S → Poll (Fut into F S) E' (Option R)
  unfolding poll_filter stacked_poll same_of
  poll_stack (filter_call ff s) =
      poll_filter into (λ s req. (S.call s req).0) stacked_poll s (F.poll ff)
  poll_stack (service_call sf) = stacked_poll sf

  abbrev pub stack : Service T E' (Option R)
  stack = record {
    State = F.State × S.State;
    Future = Fut into F S;
    clone = λ s. (F.clone s.0, S.clone s.1);
    poll_ready = poll_ready into F S;
    call = call into F S;
    poll = poll_stack;
  }

-- `Identity`

abbrev pub identity : {T : Type 0} → Service T ⊥ (Option T)
identity {T = T} = record {
  State = Unit {0};
  Future = T;
  clone = λ s. s;
  poll_ready = λ s. ready (ok s);
  call = λ s req. (req, s);
  poll = λ req. ready (ok (some req));
}

pub data FilterError (T E : Type 0) : Type 0 where
  filtered : T → FilterError T E
  errored : E → FilterError T E

pub data FuncFilterFuture (T F : Type 0) : Type 0 where
  refused : Option T → FuncFilterFuture T F
  served : F → FuncFilterFuture T F

of_served : {T F E R : Type 0} → Poll F E R → Poll (FuncFilterFuture T F) (FilterError T E) R
of_served (pending fut) = pending (served fut)
of_served (ready r) = ready (map_err (λ e. errored e) r)

module _ {T E R : Type 0} (test : T → Bool) (S : Service T E R) where
  unfoldable pub func_call : S.State → T → FuncFilterFuture T S.Future × S.State
  func_call s req =
      let (fut, s') = S.call s req in if test req then (served fut, s') else (refused (some req), s)

  unfoldable pub func_poll :
      FuncFilterFuture T S.Future → Poll (FuncFilterFuture T S.Future) (FilterError T E) R
  unfolding of_served
  func_poll (refused none) = ready panic
  func_poll (refused (some req)) = ready (err (filtered req))
  func_poll (served fut) = of_served (S.poll fut)

  unfoldable pub func_ready : Poll S.State E S.State → Poll S.State (FilterError T E) S.State
  func_ready (pending s) = pending s
  func_ready (ready r) = ready (map_err (λ e. errored e) r)

  abbrev pub func_filter : Service T (FilterError T E) R
  func_filter = record {
    State = S.State;
    Future = FuncFilterFuture T S.Future;
    clone = S.clone;
    poll_ready = λ s. func_ready (S.poll_ready s);
    call = func_call;
    poll = func_poll;
  }
