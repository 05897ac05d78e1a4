-- ===== src/Context/Exit.antt =====
-- The loops of crates/kaze-edge/src/edge.rs and crates/kaze-sidecar/src/plugins/corral/mod.rs that end when
-- `Context::trigger_exiting` is called: each of them selects between its next item, a packet or a
-- connection, and `Context::exiting`, and then hands the item on.
pub mod Missed
use kaze.Base.{List, [], ◌∷◌, ◌++◌, Bool, true, false, if◌then◌else◌, Outcome, ok, err, panic}
use kaze.Extern.Notify.{NotifyCrate}

-- Where a loop is: in its `select!`, in it but with its `Notified` ended and not polled since, handing
-- an item on, or left.
pub data Phase (E : Type 0) : Type 0 where
  selects told hands_on : Phase E
  left : Outcome E (Unit {0}) → Phase E

-- The `select!` takes the next item, or what failed; what handing it on came to; a call of
-- `trigger_exiting`; and the `select!` takes the end of its `Notified`.
pub data Event (A E : Type 0) : Type 0 where
  item : Outcome E A → Event A E
  handed : Outcome E (Unit {0}) → Event A E
  trigger exits : Event A E

-- The notification and a loop, with the items that it has taken.
pub record Running (A E : Type 0) (N : NotifyCrate) : Type 0 where
  pub real_exit : N.State
  pub phase : Phase E
  pub taken : List A

module _ {E : Type 0} where
  -- A `select!` starts: its `Notified` has ended at once when a permit is stored.
  unfoldable pub select : (N : NotifyCrate) → N.State → Phase E
  select N s = if N.has_permit s then told else selects

  -- A trigger wakes the loop when it waits in its `select!`.
  woken : Phase E → Phase E
  woken selects = told
  woken told = told
  woken hands_on = hands_on
  woken (left r) = left r

module _ {A E : Type 0} (N : NotifyCrate) where
  take_item : Outcome E A → Running A E N → Running A E N
  take_item (ok a) r = record r { phase = hands_on; taken = r.taken ++ (a ∷ []) }
  take_item (err e) r = record r { phase = left (err e) }
  take_item panic r = record r { phase = left panic }

  go_on : Outcome E (Unit {0}) → Running A E N → Running A E N
  go_on (ok t) r = record r { phase = select N r.real_exit }
  go_on (err e) r = record r { phase = left (err e) }
  go_on panic r = record r { phase = left panic }

  -- The branches of a `select!` are polled in any order: where an item is ready by the time the woken loop
  -- is polled, it may be taken, and the `Notified` is dropped. An event that the loop does not wait for
  -- leaves it as it is.
  step_in : Phase E → Running A E N → Event A E → Running A E N
  unfolding take_item go_on woken
  step_in selects r (item o) = take_item o r
  step_in told r (item o) = take_item o r
  step_in told r exits = record r { phase = left (ok tt) }
  step_in hands_on r (handed o) = go_on o r
  step_in p r trigger = record r { real_exit = N.notify_waiters r.real_exit; phase = woken p }
  step_in p r e = r

  unfoldable pub step : Running A E N → Event A E → Running A E N
  unfolding step_in
  step r e = step_in r.phase r e

  unfoldable pub run : Running A E N → List (Event A E) → Running A E N
  run r [] = r
  run r (e ∷ es) = run (step r e) es

  unfoldable pub start : Running A E N
  start = record { real_exit = N.fresh; phase = select N N.fresh; taken = [] }
