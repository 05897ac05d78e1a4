-- ===== src/Tests/Protocol.antt =====
-- Runs of the codec, and its theorems at concrete packets and bytes.
use kaze.Base.{
  ℕ, ◌≡◌, refl, arith, List, [], ◌∷◌, ◌++◌, ok, panic, Option, none, some, ◌+◌, ◌≤◌, ◌<◌, ◌⊎◌, err,
  ◌>>=◌,
}
use kaze.Extern.Bytes.{to_le_bytes, from_le_bytes}
use kaze.Protocol.Hdr.{Hdr, Prost, Codes}
use kaze.Protocol.Buf.{BufWrapper, new}
use kaze.Protocol.Buf as Buf
use kaze.Protocol.Prefix.{get_u32_le}
use kaze.Protocol.Packet.{
  Packet, IoVec, from_hdr, body, as_buf, to_iovec, remaining, chunk, advance, hdr_mut, body_mut,
}
use kaze.Protocol.Packet.Wire.{IsValid, encoded}
use kaze.Protocol.Message.{SocketAddr, Node}
use kaze.Protocol.Codec.{decode, decode_frame, encode, put_buf}
use kaze.Protocol.Codec.RoundTrip.{decode-encode}
use kaze.Protocol.Codec.IoVec.{to_iovec-encode}
use kaze.Protocol.Codec.Host.{Reads, from_host_total}
use kaze.Protocol.Encode.{Dst, EncodeError, encode_packet}
use kaze.Protocol.Encode.Room.{encode_packet_lem}
use kaze.Tests.BytesModel.{bytes}

abbrev pub plain : ℕ → Hdr
plain n = record {
  body_type = "";
  src_ident = n;
  ret_code = 0;
  version = 0;
  timeout = 0;
  headers = [];
  rpc_type = none;
  route_type = none;
}

-- A code for headers with nothing set but the source.
abbrev read_plain : List ℕ → Option Hdr
read_plain (n ∷ []) = some (plain n)
read_plain bs = none

abbrev pub prost : Prost
prost = record { encode = λ h. h.src_ident ∷ []; decode = read_plain; encoded_len = λ h. 1 }

pub plain-Codes : Codes prost (plain 7)
plain-Codes = record { decode-encode = refl; encoded_len_lem = refl; fits = omega arith }

abbrev pub packet : Packet
packet = body_mut (1 ∷ 2 ∷ []) (from_hdr (plain 7))

abbrev dirty : Packet
dirty = hdr_mut (λ h. plain 7) packet

encode_runs : encode bytes prost packet [] ≡ ok (7 ∷ 0 ∷ 0 ∷ 0 ∷ 1 ∷ 0 ∷ 0 ∷ 0 ∷ 7 ∷ 1 ∷ 2 ∷ [])
unfolding encode put_buf as_buf remaining chunk advance body Buf.remaining Buf.chunk to_le_bytes
encode_runs = refl

decode_runs : (decode bytes prost (7 ∷ 0 ∷ 0 ∷ 0 ∷ 1 ∷ 0 ∷ 0 ∷ 0 ∷ 7 ∷ 1 ∷ 2 ∷ 9 ∷ [])).0 ≡ 9 ∷ []
unfolding decode decode_frame get_u32_le Buf.chunk from_le_bytes
decode_runs = refl

-- The same frame but for its last byte.
decode_cut_short : (decode bytes prost (7 ∷ 0 ∷ 0 ∷ 0 ∷ 1 ∷ 0 ∷ 0 ∷ 0 ∷ 7 ∷ 1 ∷ [])).1 ≡ panic
unfolding decode from_le_bytes
decode_cut_short = refl

decode-encode_example :
    (wire : List ℕ) × (q : Packet) × (encode bytes prost packet (5 ∷ []) ≡ ok ((5 ∷ []) ++ wire))
    × (decode bytes prost (wire ++ (9 ∷ [])) ≡ (9 ∷ [], ok (some q)))
    × (q.hdr ≡ plain 7)
    × (body q ≡ body packet)
    × IsValid prost q
    × ((as_buf bytes prost q >>= remaining) ≡ ok 7)
unfolding as_buf remaining body Buf.remaining Buf.chunk to_le_bytes
decode-encode_example =
    decode-encode bytes prost packet 7 (5 ∷ []) (9 ∷ []) plain-Codes (omega arith) refl
      (omega arith)

to_iovec-encode_example :
    (v : IoVec) × (to_iovec bytes prost dirty ≡ ok v)
    × (encode bytes prost dirty [] ≡ ok ([] ++ (v.0 ++ v.1)))
to_iovec-encode_example = to_iovec-encode bytes prost dirty [] plain-Codes (omega arith)

from_host_total_example : Reads bytes prost (new (2 ∷ 0 ∷ 0 ∷ 0 ∷ 7 ∷ []))
from_host_total_example = from_host_total bytes prost (new (2 ∷ 0 ∷ 0 ∷ 0 ∷ 7 ∷ [])) (omega arith)

-- The size says nine, and nine bytes are there with the size itself.
abbrev early : List ℕ
early = 9 ∷ 0 ∷ 0 ∷ 0 ∷ 1 ∷ 0 ∷ 0 ∷ 0 ∷ 7 ∷ []

abbrev pub addr : SocketAddr
addr = record { ip = 0x7f00_0001; port = 8080 }

abbrev peer : Node
peer = record { ident = 7; addr = addr }

encode_packet_lem_example :
    ((8 < 1)
      × (encode_packet prost (record { written = []; room = 8 }) (plain 7) (1 ∷ 2 ∷ [])
          ≡ err EncodeError.no_rooms_for_prefix))
    ⊎ ((1 ≤ 8)
        × (8 < 4)
        × (encode_packet prost (record { written = []; room = 8 }) (plain 7) (1 ∷ 2 ∷ []) ≡ panic))
    ⊎ ((1 ≤ 8)
        × (4 ≤ 8)
        × (8 < 1 + 4)
        × (encode_packet prost (record { written = []; room = 8 }) (plain 7) (1 ∷ 2 ∷ [])
            ≡ err EncodeError.buffer_full))
    ⊎ ((1 + 4 ≤ 8)
        × (8 < 1 + 4 + 2)
        × (encode_packet prost (record { written = []; room = 8 }) (plain 7) (1 ∷ 2 ∷ []) ≡ panic))
    ⊎ ((1 + 4 + 2 ≤ 8)
        × (encode_packet prost (record { written = []; room = 8 }) (plain 7) (1 ∷ 2 ∷ [])
            ≡ ok (record { written = encoded prost (plain 7) (1 ∷ 2 ∷ []); room = 1 })))
encode_packet_lem_example =
    encode_packet_lem prost (record { written = []; room = 8 }) (plain 7) (1 ∷ 2 ∷ []) plain-Codes

-- The header fits and the prefix does not.
no_room_runs : encode_packet prost (record { written = []; room = 3 }) (plain 7) [] ≡ panic
unfolding encode_packet kaze.Protocol.Encode.put to_le_bytes
no_room_runs = refl
