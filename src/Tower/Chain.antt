-- ===== src/Tower/Chain.antt =====
-- crates/kaze-util/src/tower_ext/chain.rs: one service after another.
pub mod Refines
use kaze.Base.{Outcome, ok, err, panic}
use kaze.Tower.Future.{Poll, pending, ready, Service, poll_second}

pub data ChainFuture (FF S SF : Type 0) : Type 0 where
  waiting_inner : FF → S → ChainFuture FF S SF
  waiting_outer : SF → ChainFuture FF S SF

of_outer : {FF S SF E A : Type 0} → Poll SF E A → Poll (ChainFuture FF S SF) E A
of_outer (pending sf) = pending (waiting_outer sf)
of_outer (ready r) = ready r

module _ {T M R E E' : Type 0} (into : E → E') (F : Service T E M) (S : Service M E' R) where
  abbrev pub Fut : Type 0
  Fut = ChainFuture F.Future S.State S.Future

  -- The round of the loop in which the first future was polled; a service that has answered is
  -- followed by a round that polls the second future.
  of_inner : S.State → Poll F.Future E M → Poll Fut E' R
  unfolding of_outer
  of_inner s (pending fut) = pending (waiting_inner fut s)
  of_inner s (ready (ok m)) = of_outer (S.poll (S.call s m).0)
  of_inner s (ready (err e)) = ready (err (into e))
  of_inner s (ready panic) = ready panic

  unfoldable pub poll : Fut → Poll Fut E' R
  unfolding of_inner of_outer
  poll (waiting_inner ff s) = of_inner s (F.poll ff)
  poll (waiting_outer sf) = of_outer (S.poll sf)

  unfoldable pub call : F.State × S.State → T → Fut × (F.State × S.State)
  call (f, s) req = let (ff, f') = F.call f req in (waiting_inner ff s, (f', S.clone s))

  unfoldable pub poll_ready : F.State × S.State → Poll (F.State × S.State) E' (F.State × S.State)
  poll_ready (f, s) = poll_second into s S.poll_ready (F.poll_ready f)

  abbrev pub chain : Service T E' R
  chain = record {
    State = F.State × S.State;
    Future = Fut;
    clone = λ s. (F.clone s.0, S.clone s.1);
    poll_ready = poll_ready;
    call = call;
    poll = poll;
  }
