-- ===== src/Flight.antt =====
-- crates/kaze-util/src/singleflight.rs: calls for a key that share the work of the first. The calls
-- run on several threads; a step is what one of them does between two locks or awaits.
pub mod Sharing
pub mod Leaders
pub mod Waiting
pub mod Race
pub mod Keyed
pub mod Single
use kaze.Base.{
  ℕ, suc, ◌≡◌, List, [], ◌∷◌, Bool, true, false, if◌then◌else◌, ◌==◌, Option, none, some, Outcome,
  ok, err, panic,
}

-- `State`, the value of a watch channel.
pub data State (V : Type 0) : Type 0 where
  starting leader_dropped : State V
  done : Option V → State V

-- Where a call of `work` stands.
pub data Call (V E : Type 0) : Type 0 where
  -- Before it looks its key up.
  entering : ℕ → Call V E
  -- It awaits the work of its own, with the sender of a channel.
  leading : ℕ → ℕ → Call V E
  -- Its work is done, and it is to remove its key.
  finished : ℕ → Outcome E V → Call V E
  -- It awaits a change of a channel.
  waiting : ℕ → ℕ → Call V E
  -- The leader was dropped: it is to remove its key and try again.
  retrying : ℕ → Call V E
  -- `Ok(result)` of the leader, and `Err(value)` of another.
  led : Outcome E V → Call V E
  shared : Option V → Call V E
  dropped : Call V E

abbrev pub with_entry {ℓ} : {A : Type ℓ} → (ℕ → A) → ℕ → A → ℕ → A
with_entry f i a j = if j == i then a else f j

-- The table of a group, the channels that were made, and the calls.
pub record Group (V E : Type 0) : Type 0 where
  pub m : ℕ → Option ℕ
  pub channels : ℕ → State V
  pub next : ℕ
  pub calls : ℕ → Call V E

abbrev pub value_of : {V E : Type 0} → Outcome E V → Option V
value_of (ok v) = some v
value_of r = none

pub dropped_state : {V : Type 0} → State V → State V
dropped_state starting = leader_dropped
dropped_state s = s

module _ {V E : Type 0} where
  abbrev pub with_call : Group V E → ℕ → Call V E → Group V E
  with_call g c s = record g { calls = with_entry g.calls c s }

  -- A new channel is put under the key, and the call leads.
  unfoldable pub lead : Group V E → ℕ → ℕ → Group V E
  lead g c k = record {
    m = with_entry g.m k (some g.next);
    channels = with_entry g.channels g.next starting;
    next = suc g.next;
    calls = with_entry g.calls c (leading k g.next);
  }

  pub occupied : Group V E → ℕ → ℕ → ℕ → State V → Group V E
  occupied g c k n starting = with_call g c (waiting k n)
  occupied g c k n leader_dropped = lead g c k
  occupied g c k n (done v) = with_call g c (shared v)

  pub entered : Group V E → ℕ → ℕ → Option ℕ → Group V E
  unfolding occupied
  entered g c k none = lead g c k
  entered g c k (some n) = occupied g c k n (g.channels n)

  -- `Leader::drop`
  unfoldable pub drop_leader : Group V E → ℕ → ℕ → Group V E
  unfolding dropped_state
  drop_leader g c n = record g {
    channels = with_entry g.channels n (dropped_state (g.channels n));
    calls = with_entry g.calls c dropped;
  }

  -- A leader sends what its work has returned.
  abbrev pub publish : Group V E → ℕ → ℕ → ℕ → Outcome E V → Group V E
  publish g c k n r = record g {
    channels = with_entry g.channels n (done (value_of r));
    calls = with_entry g.calls c (finished k r);
  }

  -- `Leader::poll` once its work is ready. A work that panics sends nothing: the panic drops the leader
  -- and ends the call, and its key stays.
  unfoldable pub finish : Group V E → ℕ → ℕ → ℕ → Outcome E V → Group V E
  unfolding drop_leader
  finish g c k n (ok v) = publish g c k n (ok v)
  finish g c k n (err e) = publish g c k n (err e)
  finish g c k n panic = drop_leader g c n

  pub woken : Group V E → ℕ → ℕ → ℕ → State V → Group V E
  woken g c k n starting = g
  woken g c k n leader_dropped = with_call g c (retrying k)
  woken g c k n (done v) = with_call g c (shared v)

  abbrev pub removed : Group V E → ℕ → Call V E → ℕ → Group V E
  removed g k s c = record g { m = with_entry g.m k none; calls = with_entry g.calls c s }

  -- What a call does when it goes on; the work of a leader has come to `r`.
  pub advance : Group V E → ℕ → Outcome E V → Call V E → Group V E
  unfolding entered woken
  advance g c r (entering k) = entered g c k (g.m k)
  advance g c r (leading k n) = finish g c k n r
  advance g c r (finished k r') = removed g k (led r') c
  advance g c r (waiting k n) = woken g c k n (g.channels n)
  advance g c r (retrying k) = removed g k (entering k) c
  advance g c r s = g

  -- The call is dropped while it awaits something; it is not dropped between two awaits.
  pub cancelled : Group V E → ℕ → Call V E → Group V E
  cancelled g c (leading k n) = drop_leader g c n
  cancelled g c (waiting k n) = with_call g c dropped
  cancelled g c s = g

pub data Event (V E : Type 0) : Type 0 where
  go_on : ℕ → Outcome E V → Event V E
  cancel : ℕ → Event V E

module _ {V E : Type 0} where
  unfoldable pub step : Event V E → Group V E → Group V E
  unfolding advance cancelled
  step (go_on c r) g = advance g c r (g.calls c)
  step (cancel c) g = cancelled g c (g.calls c)

  unfoldable pub run : List (Event V E) → Group V E → Group V E
  run [] g = g
  run (e ∷ es) g = run es (step e g)

  -- A new group, and calls for the keys.
  unfoldable pub start : (ℕ → ℕ) → Group V E
  start keys = record {
    m = λ k. none;
    channels = λ n. starting;
    next = 0;
    calls = λ c. entering (keys c);
  }
