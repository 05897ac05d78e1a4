-- ===== src/Protocol/Prefix.antt =====
-- crates/kaze-protocol/src/codec.rs: `decode_packet`, the reader of `[hdr_size(4)][hdr][body]`.
use kaze.Base.{ℕ, ltb, Outcome, ok, err, panic, ◌>>=◌, ◌>>◌, bail_if, Option, none, some}
use kaze.Extern.Bytes.{BytesCrate}
use kaze.Protocol.Hdr.{Hdr, Prost}
use kaze.Protocol.Buf.{BufWrapper, remaining, chunk, advance}

-- The `anyhow` and `io` errors of the codec, told apart by their text.
pub data CodecError : Type 0 where
  no_rooms_for_prefix invalid_header_size failed_to_decode : CodecError

-- An operation that panics, as a step of the code.
abbrev pub or_panic {ℓ} : {E : Type 0} {A : Type ℓ} → Option A → Outcome E A
or_panic none = panic
or_panic (some a) = ok a

-- A decoder that fails, as a step of the code.
abbrev pub or_err {ℓ} : {E : Type 0} {A : Type ℓ} → E → Option A → Outcome E A
or_err e none = err e
or_err e (some a) = ok a

module _ (B : BytesCrate) where
  -- `get_u32_le` of the `Buf` that `BufWrapper` is: the number, and the wrapper behind it.
  unfoldable pub get_u32_le : BufWrapper → Outcome CodecError (ℕ × BufWrapper)
  get_u32_le w = do bs ← chunk w; n ← or_panic (B.get_u32_le bs); ok (n, advance w 4)

  module _ (P : Prost) where
    -- The wrapper that comes back stands behind the header: `prost` reads all that `take` lets
    -- through.
    unfoldable pub decode_packet : BufWrapper → Outcome CodecError (Hdr × BufWrapper)
    decode_packet src = do
      left ← remaining src
      bail_if (ltb left 4) no_rooms_for_prefix
      (hdr_size, src') ← get_u32_le src
      left' ← remaining src'
      bail_if (ltb left' hdr_size) invalid_header_size
      bs ← chunk src'
      hdr ← or_err failed_to_decode (P.decode (B.take_buf bs hdr_size))
      ok (hdr, advance src' hdr_size)
