-- ===== src/Tracker.antt =====
-- crates/kaze-sidecar/src/plugins/tracker/mod.rs: the plugin that answers requests which time out.
pub mod Recording
pub mod Loop
pub mod Answers
use kaze.Base.{
  ℕ, ◌+◌, ◌^◌, ◌%◌, List, [], ◌∷◌, ◌++◌, Bool, true, false, if◌then◌else◌, ◌==◌, Option, none, some,
}
use kaze.Extern.Map.{MapCrate}
use kaze.Extern.DelayQueue.{DelayQueueCrate}
use kaze.Protocol.Hdr.{Hdr, RpcType, req, rsp, seq, ret_timeout}
use kaze.Protocol.Packet.{Packet, from_hdr, from_retcode, hdr_mut}
use kaze.Protocol.Message.{Message, PacketWithAddr}
use kaze.Context.{send_local}

-- `Action::Expired` never goes over the channel: the loop makes it of the event `expired`.
pub data Action : Type 0 where
  nothing : Action
  insert : Hdr → Action
  remove : ℕ → Action

-- What the pipeline shares with the loop: the counter for sequence numbers, and the channel with
-- the actions that the loop has not received.
pub record Tracker : Type 0 where
  pub next_seq : ℕ
  pub channel : List Action

abbrev pub first_seq : ℕ
first_seq = 114514

-- `AtomicU32::fetch_add(1)` wraps.
abbrev pub bump : ℕ → ℕ
bump n = (n + 1) % 2 ^ 32

assign : ℕ → Option RpcType → Option RpcType × ℕ
assign next (some (req n)) = if n == 0 then (some (req next), bump next) else (some (req n), next)
assign next t = (t, next)

-- `assign_seq`: the header, and the counter after it.
unfoldable pub assign_seq : ℕ → Hdr → Hdr × ℕ
unfolding assign
assign_seq next hdr =
    let (t, next') = assign next hdr.rpc_type in (record hdr { rpc_type = t }, next')

record_type : Tracker → Message → Option RpcType → Tracker × Message
record_type t msg none = (t, msg)
record_type t msg (some (req n)) =
    let (hdr, next) = assign_seq t.next_seq msg.packet.hdr in
    (
      record { next_seq = next; channel = t.channel ++ (insert hdr ∷ []) },
      record msg { packet = hdr_mut (λ _. hdr) msg.packet },
    )
record_type t msg (some (rsp n)) = (record t { channel = t.channel ++ (remove n ∷ []) }, msg)

-- `record` (and `serve`, which passes its message on), while the loop is there to receive.
unfoldable pub record_message : Tracker → Message → Tracker × Message
unfolding record_type
record_message t msg =
    if msg.packet.hdr.timeout == 0 then (t, msg) else record_type t msg msg.packet.hdr.rpc_type

-- An event that `select!` yields: an action or the end of the channel, an expired entry or the end
-- of the queue, or the shutdown signal.
pub data Event (K : Type 0) : Type 0 where
  received : Option Action → Event K
  expired : Option (K × ℕ) → Event K
  shutdown : Event K

pub record Info (K : Type 0) : Type 0 where
  pub hdr : Hdr
  pub key : K

-- The packet of `send_exit`.
abbrev pub exit_packet : ℕ → Packet
exit_packet exit_timeout = from_hdr (record {
  body_type = "exit";
  src_ident = 0;
  ret_code = 0;
  version = 0;
  timeout = exit_timeout;
  headers = [];
  rpc_type = some (req 0);
  route_type = none;
})

module _ (D : DelayQueueCrate) (M : MapCrate ℕ (Info D.Key)) (local exit_timeout : ℕ) where
  -- The variables of `main_loop`, and the packets that it has given to the sink.
  pub record LoopState : Type 0 where
    pub queue : D.Queue
    pub rpc_map : M.Map
    pub exit_send : Bool
    pub sent : List PacketWithAddr

  abbrev pub start : LoopState
  start = record { queue = D.empty; rpc_map = M.empty; exit_send = false; sent = [] }

  insert_seq : LoopState → Hdr → Option ℕ → LoopState
  insert_seq s hdr none = s
  insert_seq s hdr (some n) =
      let (key, queue) = D.insert s.queue n hdr.timeout in
      record s { queue = queue; rpc_map = M.insert s.rpc_map n (record { hdr = hdr; key = key }) }

  remove_info : LoopState → ℕ → Option (Info D.Key) → LoopState
  remove_info s n none = record s { rpc_map = M.remove s.rpc_map n }
  remove_info s n (some info) = record s {
    rpc_map = M.remove s.rpc_map n;
    queue = D.try_remove s.queue info.key;
  }

  unfoldable pub handle_action : LoopState → Action → LoopState
  unfolding insert_seq remove_info
  handle_action s nothing = s
  handle_action s (insert hdr) = insert_seq s hdr (seq hdr)
  handle_action s (remove n) = remove_info s n (M.get s.rpc_map n)

  answer : LoopState → Option (Info D.Key) → LoopState
  answer s none = s
  answer s (some info) = record s {
    sent = s.sent ++ (send_local local (from_retcode info.hdr ret_timeout) ∷ []);
  }

  -- `handle_expired`, for the value of the expired entry.
  unfoldable pub handle_expired : LoopState → ℕ → LoopState
  unfolding answer
  handle_expired s n = answer s (M.get s.rpc_map n)

  -- The events that `select!` waits for: the shutdown signal only while no timer runs, and the
  -- timers only while one does.
  unfoldable pub waits_for : LoopState → Event D.Key → Bool
  waits_for s (received a) = true
  waits_for s (expired e) = if D.is_empty s.queue then false else true
  waits_for s shutdown = D.is_empty s.queue

  -- One round of the loop; `none` is its `break`.
  unfoldable pub step : LoopState → Event D.Key → Option LoopState
  step s (received none) = none
  step s (received (some a)) = some (handle_action s a)
  step s (expired none) = none
  step s (expired (some (k, n))) = some (handle_expired (record s { queue = D.expire s.queue k }) n)
  step s shutdown =
      if s.exit_send
      then none
      else some (record s {
        exit_send = true;
        sent = s.sent ++ (send_local local (exit_packet exit_timeout) ∷ []);
      })
