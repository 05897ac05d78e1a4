-- ===== src/Adaptor/Tasks.antt =====
-- crates/kaze-service/src/adaptor.rs: tasks that each have a clone of one adaptor, and the future of a
-- call of theirs until they drop it.
use kaze.Base.{
  ℕ, List, [], ◌∷◌, Bool, true, false, if◌then◌else◌, ◌==◌, Option, none, some, Outcome,
}
use kaze.Tower.Future.{Poll}
use kaze.Adaptor.{Shared, call, poll_future, drop_future}

-- The shared state, the tasks that have an `AdaptorFuture`, and what the last poll of each came to.
pub record Tasks (E R F : Type 0) : Type 0 where
  pub shared : Shared F
  pub has_future : ℕ → Bool
  pub answer : ℕ → Option (Outcome E R)

-- A task calls the adaptor with a request, polls its future, or drops it.
pub data Event (T : Type 0) : Type 0 where
  calls : ℕ → T → Event T
  polls drops : ℕ → Event T

abbrev pub with_task {ℓ} : {A : Type ℓ} → (ℕ → A) → ℕ → A → ℕ → A
with_task f i a j = if j == i then a else f j

module _ {T E R F : Type 0} (serve : T → F) (poll : F → Poll F E R) where
  called : Tasks E R F → ℕ → Option (Shared F) → Option (Tasks E R F)
  called ts i none = none
  called ts i (some s) =
      some (record { shared = s; has_future = with_task ts.has_future i true; answer = ts.answer })

  polled_by : Tasks E R F → ℕ → Option (Outcome E R) × Shared F → Tasks E R F
  polled_by ts i (r, s) = record ts { shared = s; answer = with_task ts.answer i r }

  -- `none` is the panic of a call. A task polls and drops only a future that it has.
  unfoldable pub step : Event T → Tasks E R F → Option (Tasks E R F)
  unfolding called polled_by
  step (calls i req) ts = called ts i (call serve poll req ts.shared)
  step (polls i) ts =
      some (if ts.has_future i then polled_by ts i (poll_future serve poll ts.shared) else ts)
  step (drops i) ts =
      let gone = record ts {
        shared = drop_future ts.shared;
        has_future = with_task ts.has_future i false;
      } in
      some (if ts.has_future i then gone else ts)

  unfoldable pub run : List (Event T) → Tasks E R F → Option (Tasks E R F)
  run [] ts = some ts
  run (e ∷ es) ts = elim (step e ts) [ none ↦ none | some ts' ↦ run es ts' ]

-- Tasks that have no future yet.
abbrev pub tasks_of : {E R F : Type 0} → Shared F → Tasks E R F
tasks_of s = record { shared = s; has_future = λ i. false; answer = λ i. none }

-- What two tasks were answered.
abbrev pub answers :
    {E R F : Type 0} → ℕ → ℕ → Tasks E R F → Option (Outcome E R) × Option (Outcome E R)
answers i j ts = (ts.answer i, ts.answer j)
