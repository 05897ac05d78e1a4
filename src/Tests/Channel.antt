-- ===== src/Tests/Channel.antt =====
-- Runs of a queue and of a channel over it, and their theorems at concrete queues.
use kaze.Base.{
  ℕ, if◌then◌else◌, ltb, some, ◌≡◌, refl, arith, List, [], ◌∷◌, true, false, inl, inr, ◌⊎◌,
}
use kaze.Ring.Memory.{write_u32, write_bytes, read_bytes, read_u32, store}
use kaze.Ring.Queue.{
  Queue, kz_closed, kz_toobig, kz_waitcontext, kz_read, kz_write, kz_commit, forever, mark,
  calc_need, is_closed, shutdown, reset, release,
}
use kaze.Ring.Layout.{Straight, Stored, Holds}
use kaze.Ring.Append.{with_record}
use kaze.Ring.Push.{write_ctx}
use kaze.Ring.Pop.{ReadNone}
use kaze.Ring.Send.{Outcome, kz_write-Holds}
use kaze.Ring.Wait.{asked}
use kaze.Ring.Closing.{shutdown-Closed}
use kaze.Extern.Bytes.{to_le_bytes, from_le_bytes}
use kaze.Channel.Read.{Received, NoRoom, read_util-Holds}
use kaze.Channel.Write.{Written, TooBig, write_util-Holds}
use kaze.Ring.Send as Send

-- A queue of 32 bytes with one message.
abbrev word : List ℕ
word = 7 ∷ 8 ∷ []

abbrev one : Queue
one = record {
  size = 32;
  used = 8;
  reading = false;
  head = 0;
  writing = false;
  tail = 8;
  bytes = with_record (λ i. 0) 0 word;
}

one-Straight : Straight one.size one.used one.head one.tail one.bytes (word ∷ [])
unfolding Stored write_u32 write_bytes read_bytes read_u32 store to_le_bytes from_le_bytes
one-Straight = record {
  end = 8;
  stored = ((refl, refl), refl);
  at_tail = inl (refl, omega arith);
  used_lem = refl;
}

one-Holds : Holds one (word ∷ [])
one-Holds = record {
  bounds = record {
    size_aligned = refl;
    size_small = omega arith;
    head_in = omega arith;
    tail_in = omega arith;
    head_aligned = refl;
    tail_aligned = refl;
  };
  layout = inl one-Straight;
}

-- Errors of the system do not occur in these runs.
write_util-Holds_example :
    Written tt (λ n. tt) forever [] one (word ∷ []) (9 ∷ [])
    ⊎ (TooBig tt (λ n. tt) forever [] one (word ∷ []) (9 ∷ [])
        ⊎ Send.Again one (word ∷ []) (9 ∷ []))
write_util-Holds_example =
    write_util-Holds tt (λ n. tt) forever [] one (word ∷ []) (9 ∷ []) one-Holds refl (omega arith)
      (inl one-Straight)

read_util-Holds_example :
    Received tt (λ n. tt) forever [] one (word ∷ []) 2
    ⊎ (NoRoom tt (λ n. tt) forever [] one (word ∷ []) 2 ⊎ ReadNone one (word ∷ []))
read_util-Holds_example = read_util-Holds tt (λ n. tt) forever [] one (word ∷ []) 2 one-Holds refl

shutdown-Closed_example :
    (is_closed (shutdown one) ≡ true)
    × ((kz_read (shutdown one)).0 ≡ kz_closed)
    × ((kz_write (shutdown one) 3).0 ≡ (if ltb 32 (calc_need one 3) then kz_toobig else kz_closed))
    × (kz_commit (shutdown one) (write_ctx 8 24) 3 ≡ (kz_closed, release false (shutdown one)))
    × (kz_waitcontext forever [] (shutdown one) (asked 16)
        ≡ some (kz_closed, release false (shutdown one), asked 16))
    × Holds (reset true (shutdown one)) []
shutdown-Closed_example =
    shutdown-Closed one (word ∷ []) (write_ctx 8 24) (asked 16) 3 true forever [] one-Holds refl
      refl

-- A wrapped queue of 32 bytes: eight bytes stand at 16, a mark at 28, and four bytes at the start.
abbrev eight : List ℕ
eight = 1 ∷ 2 ∷ 3 ∷ 4 ∷ 5 ∷ 6 ∷ 7 ∷ 8 ∷ []

abbrev four : List ℕ
four = 9 ∷ 9 ∷ 9 ∷ 9 ∷ []

abbrev wrapped : Queue
wrapped = record {
  size = 32;
  used = 20;
  reading = false;
  head = 16;
  writing = false;
  tail = 8;
  bytes = with_record (with_record (write_u32 (λ i. 0) 28 mark) 16 eight) 0 four;
}

wrapped-Holds : Holds wrapped (eight ∷ four ∷ [])
unfolding Stored write_u32 write_bytes read_bytes read_u32 store to_le_bytes from_le_bytes
wrapped-Holds = record {
  bounds = record {
    size_aligned = refl;
    size_small = omega arith;
    head_in = omega arith;
    tail_in = omega arith;
    head_aligned = refl;
    tail_aligned = refl;
  };
  layout = inr (record {
    first = eight ∷ [];
    second = four ∷ [];
    joined = refl;
    end = 28;
    stored_first = ((refl, refl), refl);
    marked = inr (omega arith, refl);
    stored_second = ((refl, refl), refl);
    apart = omega arith;
    wrapped_lem = refl;
  });
}
