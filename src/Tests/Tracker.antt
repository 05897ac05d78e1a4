-- ===== src/Tests/Tracker.antt =====
-- Runs of the tracker, and its theorems at a concrete request.
use kaze.Base.{ℕ, ◌≡◌, ◌≢◌, refl, [], ◌∷◌, ◌++◌, none, some, ◌⊎◌}
use kaze.Protocol.Hdr.{Hdr, req, seq}
use kaze.Protocol.Packet.{from_hdr}
use kaze.Protocol.Message.{Message, PacketWithAddr, from}
use kaze.Tracker.{
  Tracker, first_seq, insert, remove, record_message, received, expired, Info, LoopState, start,
  handle_action, step,
}
use kaze.Tracker.Recording.{Notes, record_message_lem}
use kaze.Tracker.Loop.{run, Tracks, IsTimeoutFor}
use kaze.Tracker.Answers.{step-Tracks, timeout_answered, response_silences}
use kaze.Tests.MapModel.{maps}
use kaze.Tests.QueueModel.{delay_queue}
use kaze.Tests.Protocol.{plain}

abbrev request : Hdr
request = record (plain 7) { timeout = 50; rpc_type = some (req 3) }

abbrev tracker : Tracker
tracker = record { next_seq = first_seq; channel = [] }

abbrev fresh_request : Message
fresh_request = from (from_hdr (record (plain 7) { timeout = 50; rpc_type = some (req 0) }), none)

record_message_lem_example :
    ((fresh_request.packet.hdr.timeout ≡ 0)
      × (record_message tracker fresh_request ≡ (tracker, fresh_request)))
    ⊎ ((fresh_request.packet.hdr.timeout ≢ 0)
        × Notes tracker fresh_request fresh_request.packet.hdr.rpc_type
            (record_message tracker fresh_request))
record_message_lem_example = record_message_lem tracker fresh_request

abbrev State : Type 0
State = LoopState delay_queue (maps (Info ℕ)) 9 5

abbrev at_start : State
at_start = start delay_queue (maps (Info ℕ)) 9 5

nothing_tracked : Tracks delay_queue (maps (Info ℕ)) 9 5 at_start
nothing_tracked n info e = cc

abbrev inserted : State
inserted = handle_action delay_queue (maps (Info ℕ)) 9 5 at_start (insert request)

abbrev removed : State
removed = handle_action delay_queue (maps (Info ℕ)) 9 5 at_start (remove 3)

step-Tracks_example : Tracks delay_queue (maps (Info ℕ)) 9 5 inserted
step-Tracks_example =
    step-Tracks delay_queue (maps (Info ℕ)) 9 5 at_start inserted (received (some (insert request)))
      (unfold step in refl) nothing_tracked

run-inserted :
    run delay_queue (maps (Info ℕ)) 9 5 at_start (received (some (insert request)) ∷ [])
    ≡ some inserted
unfolding run step
run-inserted = refl

run-removed :
    run delay_queue (maps (Info ℕ)) 9 5 at_start (received (some (remove 3)) ∷ []) ≡ some removed
unfolding run step
run-removed = refl

timeout_answered_example :
    (p : PacketWithAddr) × (t : State) × (step delay_queue
        (maps (Info ℕ))
        9
        5
        inserted
        (expired (some (0, 3)))
      ≡ some t)
    × (t.sent ≡ inserted.sent ++ (p ∷ []))
    × IsTimeoutFor delay_queue (maps (Info ℕ)) 9 5 3 p
timeout_answered_example =
    timeout_answered delay_queue (maps (Info ℕ)) 9 5 at_start inserted request 3 0 []
      nothing_tracked (unfold seq in refl) run-inserted tt

response_silences_example :
    (t : State) × (step delay_queue (maps (Info ℕ)) 9 5 removed (expired (some (0, 3))) ≡ some t)
    × (t.sent ≡ removed.sent)
response_silences_example =
    response_silences delay_queue (maps (Info ℕ)) 9 5 at_start removed 3 0 [] run-removed tt

abbrev info : Info ℕ
info = record { hdr = request; key = 0 }
