-- ===== src/Tower/Case.antt =====
-- crates/kaze-util/src/tower_ext/case.rs: the first service whose test a request passes, or else a
-- default one.
pub mod Refines
use kaze.Base.{Bool, Outcome, ok, err, panic, Option, none, some}
use kaze.Tower.Future.{Poll, pending, ready, Service}
use kaze.Tower.Filter.{FilterError, filtered, errored, func_filter}

pub data CaseFuture (SF D DF : Type 0) : Type 0 where
  service_call : SF → Option D → CaseFuture SF D DF
  default_call : DF → CaseFuture SF D DF

of_default : {SF D DF E R : Type 0} → Poll DF E R → Poll (CaseFuture SF D DF) E R
of_default (pending fut) = pending (default_call fut)
of_default (ready r) = ready r

-- `EmptyCase`
abbrev pub empty_case : {T : Type 0} → Service T (FilterError T ⊥) T
empty_case {T = T} = record {
  State = Unit {0};
  Future = T;
  clone = λ s. s;
  poll_ready = λ s. ready (ok s);
  call = λ s req. (req, s);
  poll = λ req. ready (err (filtered req));
}

module _ {T R E E' : Type 0} (into : E → E') (S : Service T (FilterError T E) R)
    (D : Service T E' R) where
  abbrev pub Fut : Type 0
  Fut = CaseFuture S.Future D.State D.Future

  abbrev pub State : Type 0
  State = Option S.State × D.State

  -- A request that is handed back goes to the default service; `default.take().expect(..)`.
  of_filtered : Option D.State → T → Poll Fut E' R
  unfolding of_default
  of_filtered none req = ready panic
  of_filtered (some d) req = of_default (D.poll (D.call d req).0)

  of_service : Option D.State → Poll S.Future (FilterError T E) R → Poll Fut E' R
  of_service d (pending fut) = pending (service_call fut d)
  of_service d (ready (ok r)) = ready (ok r)
  of_service d (ready (err (filtered req))) = of_filtered d req
  of_service d (ready (err (errored e))) = ready (err (into e))
  of_service d (ready panic) = ready panic

  unfoldable pub poll : Fut → Poll Fut E' R
  unfolding of_service of_filtered of_default
  poll (service_call fut d) = of_service d (S.poll fut)
  poll (default_call fut) = of_default (D.poll fut)

  unfoldable pub call : State → T → Fut × State
  call (none, d) req = (default_call (D.call d req).0, (none, D.clone d))
  call (some s, d) req =
      let (fut, s') = S.call s req in (service_call fut (some d), (some s', D.clone d))

  ready_default : Option S.State → Poll D.State E' D.State → Poll State E' State
  ready_default s (pending d) = pending (s, d)
  ready_default s (ready (ok d)) = ready (ok (s, d))
  ready_default s (ready (err e)) = ready (err e)
  ready_default s (ready panic) = ready panic

  -- `unreachable!` on `Filtered`, which is not for `poll_ready` to return.
  ready_service : D.State → Poll S.State (FilterError T E) S.State → Poll State E' State
  ready_service d (pending s) = pending (some s, d)
  ready_service d (ready (ok s)) = ready_default (some s) (D.poll_ready d)
  ready_service d (ready (err (filtered req))) = ready panic
  ready_service d (ready (err (errored e))) = ready (err (into e))
  ready_service d (ready panic) = ready panic

  unfoldable pub poll_ready : State → Poll State E' State
  unfolding ready_service ready_default
  poll_ready (none, d) = ready_default none (D.poll_ready d)
  poll_ready (some s, d) = ready_service d (S.poll_ready s)

  clone_some : Option S.State → Option S.State
  clone_some none = none
  clone_some (some s) = some (S.clone s)

  unfoldable pub clone : State → State
  unfolding clone_some
  clone (s, d) = (clone_some s, D.clone d)

  abbrev pub case : Service T E' R
  case = record {
    State = State;
    Future = Fut;
    clone = clone;
    poll_ready = poll_ready;
    call = call;
    poll = poll;
  }
