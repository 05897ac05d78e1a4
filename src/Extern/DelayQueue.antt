-- ===== src/Extern/DelayQueue.antt =====
-- `tokio_util::time::DelayQueue`, by the documented behaviour of the calls that the program makes.
-- Which entry expires next, and when, is left to the clock.
use kaze.Base.{ℕ, ◌≡◌, ◌≢◌, Bool, true, Option, none, some}

pub record DelayQueueCrate : Type 1 where
  pub Queue : Type 0
  pub Key : Type 0
  pub empty : Queue
  pub is_empty : Queue → Bool
  -- The value that waits under a key.
  pub value : Queue → Key → Option ℕ
  pub insert : Queue → ℕ → ℕ → Key × Queue
  pub try_remove : Queue → Key → Queue
  -- What the queue is once the entry of a key has been yielded as expired.
  pub expire : Queue → Key → Queue
  pub value-empty : (k : Key) → value empty k ≡ none
  pub is_empty_none : (q : Queue) (k : Key) → is_empty q ≡ true → value q k ≡ none
  pub insert_fresh : (q : Queue) (v t : ℕ) → value q (insert q v t).0 ≡ none
  pub insert_self : (q : Queue) (v t : ℕ) → value (insert q v t).1 (insert q v t).0 ≡ some v
  pub insert_ne :
      (q : Queue) (v t : ℕ) (k : Key) → k ≢ (insert q v t).0 → value (insert q v t).1 k ≡ value q k
  pub try_remove_self : (q : Queue) (k : Key) → value (try_remove q k) k ≡ none
  pub try_remove_ne : (q : Queue) (j k : Key) → j ≢ k → value (try_remove q k) j ≡ value q j
  pub expire_self : (q : Queue) (k : Key) → value (expire q k) k ≡ none
  pub expire_ne : (q : Queue) (j k : Key) → j ≢ k → value (expire q k) j ≡ value q j
