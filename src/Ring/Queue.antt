-- ===== src/Ring/Queue.antt =====
-- crates/kaze-core/kaze.h: pushing to and popping from one queue. A queue is its `kzQ_ShmInfo` with
-- its bytes; an atomic operation is one step, and waking the other side is left out, since it
-- changes nothing in the queue.
use kaze.Base.{
  ℕ, ◌+◌, ◌-◌, ◌*◌, ◌/◌, ◌%◌, ◌^◌, List, [], ◌∷◌, Bool, true, false, if◌then◌else◌, ltb, ◌==◌,
  Option, none, some,
}
use kaze.Ring.Memory.{Mem, write_u32, read_u32}

-- The return codes `KZ_*`, and any other number.
pub data Code : Type 0 where
  kz_ok kz_invalid kz_fail kz_closed kz_toobig kz_again kz_busy kz_timeout : Code
  other : ℕ → Code

-- `KZ_MAX_SIZE`, which is also `KZ_MARK`: a queue that is closed, or a wrap in its bytes.
abbrev pub mark : ℕ
mark = 2 ^ 32 - 1

abbrev pub u32 : ℕ → ℕ
u32 n = n % 2 ^ 32

-- Subtraction of 32-bit numbers.
abbrev pub sub32 : ℕ → ℕ → ℕ
sub32 a b = u32 (a + 2 ^ 32 - b)

-- `kz_get_aligned_size`, for an alignment that is a power of two.
abbrev pub aligned_to : ℕ → ℕ → ℕ
aligned_to size align = (size + align - 1) / align * align

pub record Queue : Type 0 where
  pub size : ℕ
  pub used : ℕ
  pub reading : Bool
  pub head : ℕ
  pub writing : Bool
  pub tail : ℕ
  pub bytes : Mem

-- `kz_Context`; `state` says which side of the channel it is for.
pub record Context : Type 0 where
  pub is_read : Bool
  pub pos : ℕ
  pub len : ℕ
  pub result : Code

-- `kzQ_checkclosed`: the flag that it resets is that of the side that calls it.
unfoldable pub release : Bool → Queue → Queue
release true q = record q { reading = false }
release false q = record q { writing = false }

unfoldable pub calc_need : Queue → ℕ → ℕ
calc_need q size =
    let need_size = u32 (aligned_to (u32 size + 4) 4) in
    let remain = sub32 q.size q.tail in
    if ltb remain need_size then u32 (need_size + remain) else need_size

unfoldable pub push : Queue → Context → ℕ → Code × Queue × Context
push q ctx used =
    let remain = sub32 q.size q.tail in
    let free_size = sub32 q.size used in
    if ltb free_size ctx.len
    then (kz_again, q, ctx)
    else if ltb remain ctx.len
    then (
      kz_ok,
      record q { bytes = write_u32 q.bytes q.tail mark },
      record ctx { pos = 0; len = free_size - remain },
    )
    else (kz_ok, q, record ctx { pos = q.tail; len = remain })

unfoldable pub commit_push : Queue → Context → ℕ → Code × Queue
commit_push q ctx len =
    let size = u32 (aligned_to (u32 len + 4) 4) in
    if q.used == mark
    then (kz_closed, release false q)
    else if ltb ctx.len size
    then (kz_invalid, q)
    else (
      kz_ok,
      record q {
        bytes = write_u32 q.bytes ctx.pos (u32 len);
        tail = u32 ((ctx.pos + size) % q.size);
        used = u32 (q.used + size);
        writing = false;
      },
    )

-- Where the record at `pos` begins, with its length: past a mark, at the start.
unfoldable pub record_at : Mem → ℕ → ℕ × ℕ
record_at m pos = let n = read_u32 m pos in if n == mark then (0, read_u32 m 0) else (pos, n)

unfoldable pub pop : Queue → Context → ℕ → Code × Context
unfolding record_at
pop q ctx used =
    if used == 0
    then (kz_again, ctx)
    else let (pos, len) = record_at q.bytes q.head in
      (kz_ok, record ctx { pos = pos; len = len + 4 })

unfoldable pub commit_pop : Queue → Context → Code × Queue
commit_pop q ctx =
    let size = u32 (aligned_to ctx.len 4) in
    if q.used == mark then (kz_closed, release true q) else (
      kz_ok,
      record q {
        head = u32 ((ctx.pos + size) % q.size);
        used = sub32 q.used size;
        reading = false;
      },
    )

-- `kz_read`: a context that was not made is one with the result.
unfoldable pub kz_read : Queue → Code × Queue × Context
kz_read q =
    let ctx : Context = record { is_read = true; pos = 0; len = 0; result = kz_ok } in
    let (r, ctx') = pop q ctx q.used in
    if q.used == mark
    then (kz_closed, q, ctx)
    else if q.reading
    then (kz_busy, q, record ctx { result = kz_busy })
    else (r, record q { reading = true }, record ctx' { result = r })

unfoldable pub kz_write : Queue → ℕ → Code × Queue × Context
kz_write q len =
    let need = calc_need q len in
    let ctx : Context = record { is_read = false; pos = 0; len = need; result = kz_ok } in
    let (r, q', ctx') = push (record q { writing = true }) ctx q.used in
    if ltb q.size need
    then (kz_toobig, q, ctx)
    else if q.used == mark
    then (kz_closed, q, ctx)
    else if q.writing
    then (kz_busy, q, record ctx { result = kz_busy })
    else (r, q', record ctx' { result = r })

is_ok : Code → Bool
is_ok kz_ok = true
is_ok _ = false

-- `kz_buffer`: where the buffer begins and how long it is.
unfoldable pub kz_buffer : Context → Option (ℕ × ℕ)
unfolding is_ok
kz_buffer ctx = if is_ok ctx.result then some (ctx.pos + 4, ctx.len - 4) else none

unfoldable pub commit_side : Bool → Queue → Context → ℕ → Code × Queue
commit_side true q ctx len = commit_pop q ctx
commit_side false q ctx len = commit_push q ctx len

unfoldable pub kz_commit : Queue → Context → ℕ → Code × Queue
unfolding is_ok commit_side
kz_commit q ctx len =
    if is_ok ctx.result then commit_side ctx.is_read q ctx len else (kz_invalid, q)

unfoldable pub kz_cancel : Queue → Context → Queue
kz_cancel q ctx = release ctx.is_read q

-- One look of `kz_waitcontext` at the queue.
attempt : Bool → Queue → Context → Code × Queue × Context
attempt true q ctx = let (r, ctx') = pop q ctx q.used in (r, q, ctx')
attempt false q ctx = push q ctx q.used

unfoldable pub look : Queue → Context → Code × Queue × Context
unfolding attempt
look q ctx =
    let (r, q', ctx') = attempt ctx.is_read q ctx in
    if q.used == mark
    then (kz_closed, release ctx.is_read q, ctx)
    else (r, q', record ctx' { result = r })

is_again : Code → Bool
is_again kz_again = true
is_again _ = false

-- `millis`: zero, a time, or negative.
pub data Millis : Type 0 where
  at_once in_time forever : Millis

is_timed : Millis → Bool
is_timed in_time = true
is_timed _ = false

-- The loop of `kz_waitcontext`; each round finds what the other side has made of the queue by then.
-- `none` is a call that still waits.
unfoldable pub wait_loop :
    Millis → List (Queue → Queue) → Queue → Context → Option (Code × Queue × Context)
unfolding is_again is_timed
wait_loop millis [] q ctx = none
wait_loop millis (change ∷ changes) q ctx =
    let (r, q', ctx') = look (change q) ctx in
    let rest = wait_loop millis changes q' ctx' in
    if is_again r
    then if is_timed millis then some (kz_timeout, q', ctx') else rest
    else some (r, q', ctx')

is_open : Code → Bool
is_open kz_closed = false
is_open _ = true

-- After the first look, whatever it found, `millis == 0` returns and all else enters the loop.
after_look :
    Millis → List (Queue → Queue) → Code × Queue × Context → Option (Code × Queue × Context)
after_look at_once changes r = some r
after_look millis changes (r, q, ctx) =
    if is_open r then wait_loop millis changes q ctx else some (r, q, ctx)

unfoldable pub kz_waitcontext :
    Millis → List (Queue → Queue) → Queue → Context → Option (Code × Queue × Context)
unfolding is_again after_look is_open
kz_waitcontext millis changes q ctx =
    if is_again ctx.result
    then after_look millis changes (look q ctx)
    else some (ctx.result, q, ctx)

-- `kz_shutdown` for one of the two queues.
unfoldable pub shutdown : Queue → Queue
shutdown q = record q { used = mark }

-- `kz_isclosed` for one of the two queues.
unfoldable pub is_closed : Queue → Bool
is_closed q = q.used == mark

-- `kz_resetqueues` for one queue: `reading` says that it is the one that is read from.
unfoldable pub reset : Bool → Queue → Queue
reset reading q =
    let q' = release reading q in
    if q.used == mark then record q' { head = 0; tail = 0; used = 0 } else q'

-- `kz_initqueues`: the size of each of the two queues in `total_size` bytes, which are fresh.
unfoldable pub queue_size : ℕ → ℕ
queue_size total_size =
    let aligned_size = aligned_to total_size 4 in
    (if ltb total_size aligned_size then aligned_size - 4 else aligned_size) / 2

unfoldable pub init : ℕ → Queue
init total_size = record {
  size = queue_size total_size;
  used = 0;
  reading = false;
  head = 0;
  writing = false;
  tail = 0;
  bytes = λ i. 0;
}

-- `kz_aligned`, where the header has 272 bytes.
unfoldable pub kz_aligned : ℕ → ℕ → ℕ
kz_aligned bufsize pagesize =
    let required_size = aligned_to (272 + bufsize * 2) pagesize in required_size / 4 * 4 - 272
