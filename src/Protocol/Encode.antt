-- ===== src/Protocol/Encode.antt =====
-- crates/kaze-protocol/src/codec.rs: `encode_packet`, the writer of `[hdr_size(4)][hdr][body]` into
-- a buffer of limited room.
pub mod Room
use kaze.Base.{
  ℕ, ◌-◌, List, ◌++◌, Bool, if◌then◌else◌, ltb, length, Outcome, ok, err, panic, ◌>>=◌, ◌>>◌,
  bail_if,
}
use kaze.Extern.Bytes.{to_le_bytes}
use kaze.Protocol.Hdr.{Hdr, Prost}

-- A `BufMut`: the bytes written, and `remaining_mut`, the room for more.
pub record Dst : Type 0 where
  pub written : List ℕ
  pub room : ℕ

-- The errors of `encode_packet`: its own, and `prost`'s when the room is too small for a message.
pub data EncodeError : Type 0 where
  no_rooms_for_prefix buffer_full : EncodeError

-- `BufMut::put` and `put_u32_le`, which panic without room, as `bytes` documents.
unfoldable pub put : Dst → List ℕ → Outcome EncodeError Dst
put dst bs =
    if ltb dst.room (length bs)
    then panic
    else ok (record { written = dst.written ++ bs; room = dst.room - length bs })

module _ (P : Prost) where
  -- `prost::Message::encode`, which refuses a buffer that is too small.
  unfoldable pub encode_hdr : Dst → Hdr → Outcome EncodeError Dst
  encode_hdr dst hdr = do
    bail_if (ltb dst.room (P.encoded_len hdr)) buffer_full
    put dst (P.encode hdr)

  unfoldable pub encode_packet : Dst → Hdr → List ℕ → Outcome EncodeError Dst
  encode_packet src hdr bs = do
    let hdr_size = P.encoded_len hdr
    bail_if (ltb src.room hdr_size) no_rooms_for_prefix
    prefixed ← put src (to_le_bytes hdr_size)
    coded ← encode_hdr prefixed hdr
    put coded bs
