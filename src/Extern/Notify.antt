-- ===== src/Extern/Notify.antt =====
-- `tokio::sync::Notify`, by the documented behaviour of the calls that the program makes: `notify_waiters`
-- wakes the tasks that wait, and stores no permit for those that come later.
use kaze.Base.{◌≡◌, Bool, false}

pub record NotifyCrate : Type 1 where
  pub State : Type 0
  pub fresh : State
  pub notify_waiters : State → State
  -- Whether a `notified()` that starts now has ended.
  pub has_permit : State → Bool
  pub fresh_lem : has_permit fresh ≡ false
  pub has_permit-notify_waiters : (s : State) → has_permit (notify_waiters s) ≡ has_permit s
