-- ===== src/RateLimit.antt =====
-- crates/kaze-sidecar/src/plugins/ratelimit: limits on the messages for the host. The limiters
-- are the `leaky_bucket` crate's: whether one grants a permit before its timeout is `grants`.
pub mod Limits
use Prim.Native.String.{String}
use text.Mathlib.Text.{◌==◌ as str_eq}
use kaze.Base.{
  ℕ, List, [], ◌∷◌, Bool, true, false, not, ◌&&◌, if◌then◌else◌, ◌==◌, Option, none, some, map,
}
use kaze.Protocol.Message.{Message, ident, is_local}

-- `usize` limits and durations, as they are given to the limiter's builder.
pub record Limiter : Type 0 where
  pub max : ℕ
  pub initial : ℕ
  pub refill : ℕ
  pub interval : ℕ
  pub timeout : ℕ

pub record LimitKey : Type 0 where
  pub ident : Option ℕ
  pub body_type : Option String

-- An `Ipv4Addr` is the number that `to_bits` makes of it.
pub record PerMsgLimitInfo : Type 0 where
  pub ident : Option ℕ
  pub body_type : Option String
  pub limit : Limiter

pub record Options : Type 0 where
  pub max : Option ℕ
  pub initial : ℕ
  pub refill : ℕ
  pub interval : ℕ
  pub timeout : ℕ
  pub per_msg : List PerMsgLimitInfo

pub record RateLimit : Type 0 where
  pub total : Option Limiter
  pub per_msg : List (LimitKey × Limiter)

key_of : PerMsgLimitInfo → LimitKey × Limiter
key_of info = (record { ident = info.ident; body_type = info.body_type }, info.limit)

total_limiter : Options → ℕ → Limiter
total_limiter opt max = record {
  max = max;
  initial = if opt.initial == 0 then max else opt.initial;
  refill = if opt.refill == 0 then max else opt.refill;
  interval = opt.interval;
  timeout = opt.timeout;
}

abbrev map_option {ℓ κ} : {A : Type ℓ} {B : Type κ} → (A → B) → Option A → Option B
map_option f none = none
map_option f (some a) = some (f a)

-- `RateLimit::new`; the map that `collect` makes keeps the last entry of a key.
unfoldable pub new : Options → RateLimit
unfolding total_limiter key_of
new opt = record {
  total = map_option (total_limiter opt) opt.max;
  per_msg = map key_of opt.per_msg;
}

ident_eq : Option ℕ → Option ℕ → Bool
ident_eq none none = true
ident_eq (some a) (some b) = a == b
ident_eq _ _ = false

type_eq : Option String → Option String → Bool
type_eq none none = true
type_eq (some a) (some b) = str_eq a b
type_eq _ _ = false

unfoldable pub key_eq : LimitKey → LimitKey → Bool
unfolding ident_eq type_eq
key_eq a b = ident_eq a.ident b.ident && type_eq a.body_type b.body_type

last_of : Option Limiter → Bool → Limiter → Option Limiter
last_of (some later) hit l = some later
last_of none hit l = if hit then some l else none

-- `map.get(&key)`
unfoldable pub get : LimitKey → List (LimitKey × Limiter) → Option Limiter
unfolding last_of
get k [] = none
get k ((j, l) ∷ rest) = last_of (get k rest) (key_eq j k) l

module _ (grants : Limiter → Bool) where
  -- `OptionFuture` of `acquire_one`: `Some(false)` is a timeout.
  unfoldable pub refused : Option Limiter → Bool
  refused none = false
  refused (some l) = not (grants l)

  joined : List (LimitKey × Limiter) → ℕ → String → Bool
  joined per_msg i t =
      not (refused (get (record { ident = some i; body_type = none }) per_msg))
      && not (refused (get (record { ident = none; body_type = some t }) per_msg))
      && not (refused (get (record { ident = some i; body_type = some t }) per_msg))

  by_key : List (LimitKey × Limiter) → ℕ → String → Bool
  by_key [] i t = true
  by_key (e ∷ es) i t = joined (e ∷ es) i t

  unfoldable pub acquire_one : RateLimit → ℕ → String → Bool
  unfolding by_key joined
  acquire_one r i t = if refused r.total then false else by_key r.per_msg i t

  -- `serve`: `none` is the message that is dropped.
  unfoldable pub serve : RateLimit → Message → Option Message
  serve r msg =
      if not (is_local msg.destination)
      then some msg
      else if acquire_one r (ident msg.source) msg.packet.hdr.body_type
      then some msg
      else none
