-- ===== src/Tower/Sink.antt =====
-- crates/kaze-util/src/tower_ext/sink.rs: a sink as a service. The sink is shared by the clones, and a poll
-- locks it.
use kaze.Base.{ℕ, zero, suc, ◌≡◌, refl, Outcome, ok, err, panic, Option, none, some}
use kaze.Tower.Future.{Poll, pending, ready}
use kaze.Tower.Future.Resolves.{Resolves, same_poll}

-- `futures::Sink`: what its operations come to.
pub record Sink (Item E : Type 0) : Type 1 where
  pub State : Type 0
  pub poll_ready : State → Poll State E State
  pub start_send : State → Item → Outcome E State
  pub poll_flush : State → Poll State E (Unit {0})

-- A `SendFuture` with its sink.
abbrev pub SendFuture : {Item E : Type 0} → Sink Item E → Type 0
SendFuture {Item = Item} K = Option Item × K.State

-- `map_err(Into::into)`
abbrev pub converted : {E E' A : Type 0} → (E → E') → Outcome E A → Outcome E' A
converted into (ok a) = ok a
converted into (err e) = err (into e)
converted into panic = panic

module _ {Item E E' : Type 0} (K : Sink Item E) (into : E → E') where
  flushed : Poll K.State E (Unit {0}) → Poll (SendFuture K) E' (Unit {0})
  flushed (pending s) = pending (none, s)
  flushed (ready (ok t)) = ready (ok t)
  flushed (ready (err e)) = ready (err (into e))
  flushed (ready panic) = ready panic

  sent : Outcome E K.State → Poll (SendFuture K) E' (Unit {0})
  unfolding flushed
  sent (ok s) = flushed (K.poll_flush s)
  sent (err e) = ready (err (into e))
  sent panic = ready panic

  -- `SendFuture::poll`
  unfoldable pub poll : SendFuture K → Poll (SendFuture K) E' (Unit {0})
  unfolding sent flushed
  poll (some item, s) = sent (K.start_send s item)
  poll (none, s) = flushed (K.poll_flush s)

  -- Without an item the future is polled as the sink is flushed.
  flush-Resolves :
      (n : ℕ) (s : K.State) (r : Outcome E (Unit {0}))
      → Resolves K.poll_flush n s r
      → Resolves poll n (none, s) (converted into r)
  unfolding poll flushed
  flush-Resolves zero s (ok t) h = rw h refl
  flush-Resolves zero s (err e) h = rw h refl
  flush-Resolves zero s panic h = rw h refl
  flush-Resolves (suc n) s r (s', e, rest) = ((none, s'), rw e refl, flush-Resolves n s' r rest)

  -- An item that the sink takes is given to it by the first poll, which flushes the sink as well, so
  -- that what is then polled has no item left; without one, a poll is a flush of the sink. The
  -- future is ready at just the poll at which the flush is, with what it comes to, an error converted.
  pub send-Resolves :
      (item : Item) (s s' : K.State) (n : ℕ) (r : Outcome E (Unit {0}))
      → K.start_send s item ≡ ok s'
      → Resolves K.poll_flush n s' r
      → Resolves poll n (some item, s) (converted into r)
        × (poll (some item, s) ≡ poll (none, s'))
        × ((a b : K.State) → K.poll_flush a ≡ pending b → poll (none, a) ≡ pending (none, b))
  unfolding poll sent flushed
  send-Resolves item s s' n r e h = (
    same_poll poll n (some item, s) (none, s') (converted into r) (rw e refl)
        (flush-Resolves n s' r h),
    rw e refl,
    λ a b p. rw p refl,
  )

  -- A sink that does not take the item is not flushed.
  pub send_refused :
      (item : Item) (s : K.State) (e : E)
      → K.start_send s item ≡ err e
      → poll (some item, s) ≡ ready (err (into e))
  unfolding poll sent
  send_refused item s e h = rw h refl
