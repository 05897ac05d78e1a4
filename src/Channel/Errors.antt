-- ===== src/Channel/Errors.antt =====
-- crates/kaze-core/src/lib.rs: the errors of a channel, and its `Mode`.
use kaze.Base.{ℕ, Option, none, some, Bool, if◌then◌else◌, ◌==◌, not, Outcome, ok, err}
use kaze.Ring.Queue.{
  Code, kz_ok, kz_invalid, kz_fail, kz_closed, kz_toobig, kz_again, kz_busy, kz_timeout, other,
}
use Prim.Native.Nat.{bit_and, bit_or}

-- The kinds of `std::io::Error` that the program names.
pub data ErrorKind : Type 0 where
  other_kind invalid_input broken_pipe out_of_memory would_block resource_busy timed_out not_found :
      ErrorKind

-- `Io` is `std::io::Error`.
pub data Error (Io : Type 0) : Type 0 where
  no_error invalid : Error Io
  fail : Io → Error Io
  closed too_big again busy timeout : Error Io

-- `last_os_error` is what the system holds for the thread, and `unknown` makes an error of a code's
-- number.
module _ {Io : Type 0} (last_os_error : Io) (unknown : ℕ → Io) where
  unfoldable pub from_retcode : Code → Error Io
  from_retcode kz_ok = no_error
  from_retcode kz_invalid = invalid
  from_retcode kz_fail = fail last_os_error
  from_retcode kz_closed = closed
  from_retcode kz_toobig = too_big
  from_retcode kz_again = again
  from_retcode kz_busy = busy
  from_retcode kz_timeout = timeout
  from_retcode (other n) = fail (unknown n)

  unfoldable pub get_result {ℓ} : {T : Type ℓ} → Code → T → Outcome (Error Io) T
  get_result kz_ok t = ok t
  get_result code t = err (from_retcode code)

module _ {Io : Type 0} where
  -- `Error::fail_error`, and `source` and `Into<Option<io::Error>>` alike.
  unfoldable pub fail_error : Error Io → Option Io
  fail_error (fail e) = some e
  fail_error _ = none

  -- `with_closed_handled`, of what its function returned.
  unfoldable pub with_closed_handled : Outcome (Error Io) (Unit {0}) → Outcome (Error Io) (Unit {0})
  with_closed_handled (ok t) = ok t
  with_closed_handled (err closed) = ok tt
  with_closed_handled r = r

  -- `Into<io::Error>`: `wrap` and `wrap_io` are `io::Error::new` of a kind with the error.
  unfoldable pub into_io : (ErrorKind → Error Io → Io) → (ErrorKind → Io → Io) → Error Io → Io
  into_io wrap wrap_io no_error = wrap other_kind no_error
  into_io wrap wrap_io invalid = wrap invalid_input invalid
  into_io wrap wrap_io (fail e) = wrap_io other_kind e
  into_io wrap wrap_io closed = wrap broken_pipe closed
  into_io wrap wrap_io too_big = wrap out_of_memory too_big
  into_io wrap wrap_io again = wrap would_block again
  into_io wrap wrap_io busy = wrap resource_busy busy
  into_io wrap wrap_io timeout = wrap timed_out timeout

-- `KZ_READ` and `KZ_WRITE`
abbrev pub kz_read_bit : ℕ
kz_read_bit = 1

abbrev pub kz_write_bit : ℕ
kz_write_bit = 2

-- `Mode`: a set of the two bits.
unfoldable pub with_read : ℕ → Bool → ℕ
with_read mode is_read = bit_or mode (if is_read then kz_read_bit else 0)

unfoldable pub with_write : ℕ → Bool → ℕ
with_write mode is_write = bit_or mode (if is_write then kz_write_bit else 0)

unfoldable pub can_read : ℕ → Bool
can_read mode = not (bit_and mode kz_read_bit == 0)

unfoldable pub can_write : ℕ → Bool
can_write mode = not (bit_and mode kz_write_bit == 0)

unfoldable pub is_ready : ℕ → Bool
is_ready mode = not (mode == 0)
