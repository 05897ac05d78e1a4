-- ===== src/Tracker/Recording.antt =====
-- What the tracker notes of a message that passes.
use kaze.Base.{
  ℕ, ◌≡◌, ◌≢◌, refl, arith, [], ◌∷◌, ◌++◌, if◌then◌else◌, ◌==◌, Bool-cases, Option, none, some, inl,
  inr, ◌⊎◌, ==_iff,
}
use kaze.Protocol.Hdr.{Hdr, RpcType, req, rsp}
use kaze.Protocol.Packet.{hdr_mut}
use kaze.Protocol.Message.{Message}
use kaze.Tracker.{Tracker, insert, remove, bump, assign_seq, record_message, record_type}

abbrev pub with_req : ℕ → Hdr → Hdr
with_req n hdr = record hdr { rpc_type = some (req n) }

-- The number that a request goes by: its own, or a fresh one for 0.
abbrev pub number : Tracker → ℕ → ℕ
number t n = if n == 0 then t.next_seq else n

-- What recording comes to, for each kind of message with a timeout.
abbrev pub Notes : Tracker → Message → Option RpcType → Tracker × Message → Type 0
Notes t msg none r = r ≡ (t, msg)
Notes t msg (some (rsp n)) r = r ≡ (record t { channel = t.channel ++ (remove n ∷ []) }, msg)
Notes t msg (some (req n)) r =
    (r.1 ≡ record msg { packet = hdr_mut (with_req (number t n)) msg.packet })
    × (r.0.channel ≡ t.channel ++ (insert r.1.packet.hdr ∷ []))
    × (r.0.next_seq ≡ (if n == 0 then bump t.next_seq else t.next_seq))

notes :
    (t : Tracker) (msg : Message) (rt : Option RpcType)
    → msg.packet.hdr.rpc_type ≡ rt
    → Notes t msg rt (record_type t msg rt)
unfolding record_type assign_seq
notes t msg none e = refl
notes t msg (some (rsp n)) e = refl
notes t msg (some (req n)) e = elim (Bool-cases (n == 0)) [
  | inl z ↦ rw (e, z) (refl, refl, refl)
  | inr p ↦ rw (e, p) (refl, refl, refl)
]

-- A message without a timeout, or that is neither request nor response, passes unnoted. A response
-- passes as it is, and its number is to be removed. A request passes with its own number or, for
-- 0, the counter's, and nothing else changed but that its header is marked as changed; the header
-- that passes is the one to be tracked, and the counter moves exactly when its number was used.
pub record_message_lem :
    (t : Tracker) (msg : Message)
    → ((msg.packet.hdr.timeout ≡ 0) × (record_message t msg ≡ (t, msg)))
      ⊎ ((msg.packet.hdr.timeout ≢ 0) × Notes t msg msg.packet.hdr.rpc_type (record_message t msg))
unfolding record_message
record_message_lem t msg = elim (Bool-cases (msg.packet.hdr.timeout == 0)) [
  | inl z ↦ inl ((==_iff msg.packet.hdr.timeout 0).0 z, rw z refl)
  | inr p ↦ inr ((λ e. ground arith), rw p (notes t msg msg.packet.hdr.rpc_type refl))
]
