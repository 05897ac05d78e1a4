-- ===== src/Channel/Calls.antt =====
-- crates/kaze-core/src/lib.rs: reading from and writing to a channel. Each call is given the queue of
-- its direction and returns it; a `Context` is dropped without a call of `kz_cancel`.
use kaze.Base.{
  ℕ, List, [], length, Bool, true, false, if◌then◌else◌, ltb, not, ◌||◌, Option, none, some,
  Outcome, ok, err, panic, ◌>>=◌,
}
use kaze.Ring.Memory.{read_bytes, write_bytes}
use kaze.Ring.Queue.{
  Queue, Context, Code, kz_ok, kz_again, kz_read, kz_write, kz_buffer, kz_commit, kz_waitcontext,
  Millis,
}
use mathlib.Core.Option.{map}
use kaze.Channel.Errors.{Error, invalid, too_big, from_retcode, get_result}

unfoldable pub is_ready_code : Code → Bool
is_ready_code kz_ok = true
is_ready_code kz_again = true
is_ready_code _ = false

unfoldable pub would_block : Context → Bool
would_block ctx = is_again ctx.result
  where
    is_again : Code → Bool
    is_again kz_again = true
    is_again _ = false

-- The bytes of `Context::buffer`.
unfoldable pub buffer : Queue → Context → List ℕ
buffer q ctx = elim (kz_buffer ctx) [ none ↦ [] | some (p, n) ↦ read_bytes q.bytes p n ]

-- The length of `Context::buffer_mut`.
unfoldable pub buffer_len : Context → ℕ
buffer_len ctx = elim (kz_buffer ctx) [ none ↦ 0 | some (p, n) ↦ n ]

-- `Buf::copy_to_slice`, to the start of `buffer_mut`
unfoldable pub copy_to_buffer : Queue → Context → List ℕ → Queue
copy_to_buffer q ctx bs = elim (kz_buffer ctx) [
  | none ↦ q
  | some (p, n) ↦ record q { bytes = write_bytes q.bytes p bs }
]

-- What a call comes to, with the queue as it leaves it.
abbrev pub Call : Type 0 → Type 0 → Type 0
Call Io A = Outcome (Error Io) A × Queue

-- `last_os_error` and `unknown` are the errors that `from_retcode` takes from the system.
module _ {Io : Type 0} (last_os_error : Io) (unknown : ℕ → Io) where
  context_of : Code × Queue × Context → Call Io Context
  context_of (r, q, ctx) =
      if is_ready_code r then (ok ctx, q) else (err (from_retcode last_os_error unknown r), q)

  unfoldable pub read_context : Queue → Call Io Context
  unfolding context_of
  read_context q = context_of (kz_read q)

  unfoldable pub write_context : Queue → ℕ → Call Io Context
  unfolding context_of
  write_context q len = context_of (kz_write q len)

  -- `Context::commit`
  unfoldable pub commit : Queue → Context → ℕ → Call Io (Unit {0})
  commit q ctx len =
      let (r, q') = kz_commit q ctx len in (get_result last_os_error unknown r tt, q')

  -- The length is returned where the commit succeeds.
  with_len : ℕ → Call Io (Unit {0}) → Call Io ℕ
  with_len n (r, q) = (r >>= λ _. ok n, q)

  -- `Context::read`, into a buffer with room for `room` bytes, and the bytes that it puts there.
  unfoldable pub context_read : Queue → Context → ℕ → Call Io ℕ × List ℕ
  unfolding with_len
  context_read q ctx room =
      let bs = buffer q ctx in
      if not ctx.is_read || would_block ctx
      then ((err invalid, q), [])
      else if ltb room (length bs)
      then ((err too_big, q), [])
      else (with_len (length bs) (commit q ctx 0), bs)

  -- `Context::write`
  unfoldable pub context_write : Queue → Context → List ℕ → Call Io ℕ
  unfolding with_len
  context_write q ctx bs =
      if ctx.is_read || would_block ctx
      then (err invalid, q)
      else if ltb (buffer_len ctx) (length bs)
      then (err too_big, q)
      else with_len (length bs) (commit (copy_to_buffer q ctx bs) ctx (length bs))

  waited : Code × Queue × Context → Call Io Context
  waited (r, q, ctx) = (get_result last_os_error unknown r ctx, q)

  -- `Context::wait_util`; `none` is a call that still waits.
  unfoldable pub wait_util :
      Millis → List (Queue → Queue) → Queue → Context → Option (Call Io Context)
  unfolding waited
  wait_util millis changes q ctx = map waited (kz_waitcontext millis changes q ctx)

  -- `Channel::read_util`
  read_waited : ℕ → Call Io Context → Call Io ℕ × List ℕ
  read_waited room (ok ctx, q) = context_read q ctx room
  read_waited room (err e, q) = ((err e, q), [])
  read_waited room (panic, q) = ((panic, q), [])

  read_after : Millis → List (Queue → Queue) → ℕ → Call Io Context → Option (Call Io ℕ × List ℕ)
  unfolding read_waited
  read_after millis changes room (ok ctx, q) =
      map (read_waited room) (wait_util millis changes q ctx)
  read_after millis changes room (err e, q) = some ((err e, q), [])
  read_after millis changes room (panic, q) = some ((panic, q), [])

  unfoldable pub read_util : Millis → List (Queue → Queue) → Queue → ℕ → Option (Call Io ℕ × List ℕ)
  unfolding read_after
  read_util millis changes q room = read_after millis changes room (read_context q)

  -- `Channel::write_util`
  write_waited : List ℕ → Call Io Context → Call Io (Unit {0})
  write_waited bs (ok ctx, q) = let (r, q') = context_write q ctx bs in (r >>= λ _. ok tt, q')
  write_waited bs (err e, q) = (err e, q)
  write_waited bs (panic, q) = (panic, q)

  write_after :
      Millis → List (Queue → Queue) → List ℕ → Call Io Context → Option (Call Io (Unit {0}))
  unfolding write_waited
  write_after millis changes bs (ok ctx, q) = map (write_waited bs) (wait_util millis changes q ctx)
  write_after millis changes bs (err e, q) = some (err e, q)
  write_after millis changes bs (panic, q) = some (panic, q)

  unfoldable pub write_util :
      Millis → List (Queue → Queue) → Queue → List ℕ → Option (Call Io (Unit {0}))
  unfolding write_after
  write_util millis changes q bs = write_after millis changes bs (write_context q (length bs))
