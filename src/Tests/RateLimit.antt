-- ===== src/Tests/RateLimit.antt =====
-- Runs of the rate limit, and its theorems at a concrete set of limits.
use kaze.Base.{ℕ, ◌≡◌, refl, [], ◌∷◌, Bool, true, false, ◌==◌, none, some, ◌⊎◌}
use kaze.Protocol.Message.{Message, from, ident, is_local, set_destination, Destination}
use kaze.RateLimit.{Limiter, PerMsgLimitInfo, Options, RateLimit, new, acquire_one, serve}
use kaze.RateLimit.Limits.{Admitted, serve_lem}
use kaze.Tests.Protocol.{packet}

abbrev limiter : ℕ → Limiter
limiter max = record { max = max; initial = 0; refill = 1; interval = 10; timeout = 0 }

abbrev options : Options
options = record {
  max = some 100;
  initial = 0;
  refill = 0;
  interval = 100;
  timeout = 0;
  per_msg = record { ident = some 7; body_type = none; limit = limiter 3 } ∷ [];
}

-- Only the limiter of all messages has a permit left.
abbrev total_only : Limiter → Bool
total_only l = l.max == 100

acquire_runs : acquire_one total_only (new options) 7 "" ≡ false
unfolding acquire_one new kaze.RateLimit.get kaze.RateLimit.key_eq kaze.RateLimit.refused
acquire_runs = refl

acquire_other_runs : acquire_one total_only (new options) 8 "" ≡ true
unfolding acquire_one new kaze.RateLimit.get kaze.RateLimit.key_eq kaze.RateLimit.refused
acquire_other_runs = refl

abbrev message : Message
message = set_destination Destination.host (from (packet, none))

serve_lem_example :
    ((is_local message.destination ≡ false)
      × (serve total_only (new options) message ≡ some message))
    ⊎ ((is_local message.destination ≡ true)
        × Admitted total_only (new options) (ident message.source) message.packet.hdr.body_type
        × (serve total_only (new options) message ≡ some message))
    ⊎ ((is_local message.destination ≡ true)
        × (¬ Admitted total_only (new options) (ident message.source) message.packet.hdr.body_type)
        × (serve total_only (new options) message ≡ none))
serve_lem_example = serve_lem total_only (new options) message
