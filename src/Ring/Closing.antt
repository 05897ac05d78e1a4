-- ===== src/Ring/Closing.antt =====
-- Queues that are made, shut down and reset.
use kaze.Base.{
  ℕ, ◌/◌, ◌%◌, ◌^◌, ◌≤◌, ◌<◌, ◌≡◌, refl, arith, List, [], Bool, true, false, le→ltb, inl, inr,
  if◌then◌else◌, ltb, Bool-cases, some,
}
use kaze.Ring.Memory.{Mem}
use kaze.Ring.Queue.{
  Queue, Context, Millis, at_once, in_time, forever, kz_ok, kz_closed, kz_again, kz_toobig,
  kz_waitcontext, look, kz_read, kz_write, kz_commit, commit_side, commit_push, commit_pop,
  shutdown, is_closed, reset, init, queue_size, release, calc_need, aligned_to,
}
use kaze.Ring.Layout.{Lies, Holds, Stored}

no_messages :
    (size : ℕ) (bytes : Mem) → size % 4 ≡ 0 → 0 < size → size < 2 ^ 31 → Lies size 0 0 0 bytes []
unfolding Stored
no_messages size bytes al pos small = record {
  bounds = record {
    size_aligned = al;
    size_small = small;
    head_in = pos;
    tail_in = pos;
    head_aligned = refl;
    tail_aligned = refl;
  };
  layout = inl (record { end = 0; stored = refl; at_tail = inl (refl, pos); used_lem = refl });
}

-- Fresh queues in `n` bytes hold nothing, where `n` is a multiple of eight, at least eight and
-- below 2 ^ 32.
pub init-Holds : (n : ℕ) → n % 8 ≡ 0 → 8 ≤ n → n < 2 ^ 32 → Holds (init n) []
unfolding init queue_size
init-Holds n al pos small =
    let same : aligned_to n 4 ≡ n = omega arith in
    no_messages (queue_size n) (λ i. 0) size_aligned size_pos size_small
  where
    size_lem : queue_size n ≡ n / 2
    size_lem =
        let same : aligned_to n 4 ≡ n = omega arith in
        unfold queue_size in rw (same, le→ltb n n (omega arith)) refl

    size_aligned : queue_size n % 4 ≡ 0
    size_aligned = rw size_lem (omega arith)

    size_pos : 0 < queue_size n
    size_pos = rw size_lem (omega arith)

    size_small : queue_size n < 2 ^ 31
    size_small = rw size_lem (omega arith)

commit-closed :
    (b : Bool) (q : Queue) (ctx : Context) (len : ℕ)
    → commit_side b (shutdown q) ctx len ≡ (kz_closed, release b (shutdown q))
unfolding commit_side commit_push commit_pop shutdown
commit-closed true q ctx len = refl
commit-closed false q ctx len = refl

reset-closed :
    (b : Bool) (q : Queue) (msgs : List (List ℕ)) → Holds q msgs → Holds (reset b (shutdown q)) []
unfolding reset release shutdown
reset-closed b q msgs h = go b
  where
    empty : Lies q.size 0 0 0 q.bytes []
    empty =
        let lt = h.bounds.head_in in
        no_messages q.size q.bytes h.bounds.size_aligned (omega arith) h.bounds.size_small

    go : (b : Bool) → Holds (reset b (shutdown q)) []
    go true = unfold reset release shutdown in empty
    go false = unfold reset release shutdown in empty

write-closed :
    (q : Queue) (len : ℕ)
    → (kz_write (shutdown q) len).0
      ≡ (if ltb q.size (calc_need q len) then kz_toobig else kz_closed)
unfolding kz_write shutdown calc_need
write-closed q len = elim (Bool-cases (ltb q.size (calc_need q len))) [
  | inl big ↦ rw big refl
  | inr fits ↦ rw fits refl
]

look-closed :
    (q : Queue) (ctx : Context)
    → look (shutdown q) ctx ≡ (kz_closed, release ctx.is_read (shutdown q), ctx)
unfolding look shutdown
look-closed q ctx = refl

waitcontext-closed :
    (millis : Millis) (changes : List (Queue → Queue)) (q : Queue) (ctx : Context)
    → ctx.result ≡ kz_again
    → kz_waitcontext millis changes (shutdown q) ctx
      ≡ some (kz_closed, release ctx.is_read (shutdown q), ctx)
unfolding kz_waitcontext
waitcontext-closed at_once changes q ctx e = simp (e, look-closed q ctx) refl
waitcontext-closed in_time changes q ctx e = simp (e, look-closed q ctx) refl
waitcontext-closed forever changes q ctx e = simp (e, look-closed q ctx) refl

-- Once a queue is shut down, it is closed: reading answers so, and so do writing, unless the message is
-- larger than would fit, committing what was begun before, and waiting on with a context that was to
-- wait, for whatever time; a commit and a wait end what the side had begun, whichever it is. When the
-- queue is then reset, it holds nothing, for the side that resets it to begin anew.
pub shutdown-Closed :
    (q : Queue) (msgs : List (List ℕ)) (ctx waits : Context) (len : ℕ) (side : Bool)
    (millis : Millis) (changes : List (Queue → Queue))
    → Holds q msgs
    → ctx.result ≡ kz_ok
    → waits.result ≡ kz_again
    → (is_closed (shutdown q) ≡ true)
      × ((kz_read (shutdown q)).0 ≡ kz_closed)
      × ((kz_write (shutdown q) len).0
          ≡ (if ltb q.size (calc_need q len) then kz_toobig else kz_closed))
      × (kz_commit (shutdown q) ctx len ≡ (kz_closed, release ctx.is_read (shutdown q)))
      × (kz_waitcontext millis changes (shutdown q) waits
          ≡ some (kz_closed, release waits.is_read (shutdown q), waits))
      × Holds (reset side (shutdown q)) []
unfolding is_closed shutdown kz_read kz_commit
shutdown-Closed q msgs ctx waits len side millis changes h begun again = (
  refl,
  refl,
  write-closed q len,
  simp begun (commit-closed ctx.is_read q ctx len),
  waitcontext-closed millis changes q waits again,
  reset-closed side q msgs h,
)
