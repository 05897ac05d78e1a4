-- ===== src/Protocol/Hdr.antt =====
-- crates/kaze-protocol/src/proto.rs and the header types of src/proto/kaze.rs.
use Prim.Native.String.{String}
use kaze.Base.{ℕ, ◌^◌, ◌<◌, ◌≡◌, List, length, Option, none, some}

pub data RpcType : Type 0 where
  req : ℕ → RpcType
  rsp : ℕ → RpcType

pub record DstMask : Type 0 where
  pub ident : ℕ
  pub mask : ℕ

pub data RouteType : Type 0 where
  dst_ident : ℕ → RouteType
  dst_random : DstMask → RouteType
  dst_broadcast : DstMask → RouteType
  dst_multicast : List ℕ → RouteType

-- The code never looks into `headers`; the list holds the map's entries in one fixed order.
pub record Hdr : Type 0 where
  pub body_type : String
  pub src_ident : ℕ
  pub ret_code : ℕ
  pub version : ℕ
  pub timeout : ℕ
  pub headers : List (String × List ℕ)
  pub rpc_type : Option RpcType
  pub route_type : Option RouteType

pub data RetCode : Type 0 where
  ret_ok ret_unreachable ret_timeout : RetCode

-- `ret_code as u32`
unfoldable pub to_u32 : RetCode → ℕ
to_u32 ret_ok = 0
to_u32 ret_unreachable = 1
to_u32 ret_timeout = 2

unfoldable pub as_str_name : RetCode → String
as_str_name ret_ok = "RET_OK"
as_str_name ret_unreachable = "RET_UNREACHABLE"
as_str_name ret_timeout = "RET_TIMEOUT"

seq_of : RpcType → ℕ
seq_of (req n) = n
seq_of (rsp n) = n

unfoldable pub seq : Hdr → Option ℕ
unfolding seq_of
seq h = elim (h.rpc_type) [ none ↦ none | some t ↦ some (seq_of t) ]

-- The code that `prost` derives for `Hdr`.
pub record Prost : Type 0 where
  pub encode : Hdr → List ℕ
  pub decode : List ℕ → Option Hdr
  pub encoded_len : Hdr → ℕ

-- What `prost` documents of a header: it is decoded from its encoding, whose length is known
-- beforehand and fits the 32-bit field that the code writes it to.
pub record Codes (P : Prost) (h : Hdr) : Type 0 where
  pub decode-encode : P.decode (P.encode h) ≡ some h
  pub encoded_len_lem : P.encoded_len h ≡ length (P.encode h)
  pub fits : P.encoded_len h < 2 ^ 32
