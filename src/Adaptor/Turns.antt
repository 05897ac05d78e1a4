-- ===== src/Adaptor/Turns.antt =====
-- One request at a time: what an adaptor makes of it.
use kaze.Base.{ℕ, zero, suc, ◌≡◌, refl, ◌++◌, append-nil, true, false, none, some, Outcome}
use kaze.Tower.Future.{Poll}
use kaze.Tower.Future.Resolves.{Resolves}
use kaze.Adaptor.{
  Shared, over, held, set, reset, poll_ready, call, poll_future, drive, drop_future, ready_call,
  to_wake,
}

module _ {T E R F : Type 0} (serve : T → F) (poll : F → Poll F E R) where
  drive-Resolves :
      (n : ℕ) (s : Shared F) (f : F) (r : Outcome E R)
      → s.future ≡ held f
      → Resolves poll n f r
      → drive serve poll n s ≡ (some r, reset (record s { future = over }))
  unfolding drive poll_future
  drive-Resolves zero s f r e h = rw (e, h) refl
  drive-Resolves (suc n) s f r e (f', p, h) =
      rw (e, p) (drive-Resolves n (record s { future = held f' }) f' r refl h)

  -- An adaptor that is not in flight is called, and answers a request with what the service's future
  -- comes to, whenever that is; it is then not in flight again, and has woken the task that waited, if
  -- there was one.
  pub ready_call-Resolves :
      (task : ℕ) (req : T) (n : ℕ) (s : Shared F) (r : Outcome E R)
      → s.in_flight ≡ false
      → Resolves poll n (serve req) r
      → ready_call serve poll task req n s
        ≡ some (
          r,
          record {
            in_flight = false;
            waker = none;
            future = over;
            woken = s.woken ++ to_wake s.waker;
          },
        )
  unfolding ready_call poll_ready call set drop_future reset to_wake
  ready_call-Resolves task req n s r idle h =
      let driven = drive-Resolves n (set (serve req) s) (serve req) r (unfold set in refl) h in
      simp (idle, driven, append-nil) refl

  -- While it is in flight, an adaptor is ready for no task, only notes the last that asked, and panics
  -- when it is called.
  pub in_flight_lem :
      (task : ℕ) (req : T) (s : Shared F)
      → s.in_flight ≡ true
      → (poll_ready task s ≡ (false, record s { waker = some task }))
        × (call serve poll req s ≡ none)
  unfolding poll_ready call
  in_flight_lem task req s busy = (rw busy refl, rw busy refl)
