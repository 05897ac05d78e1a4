-- ===== src/Tests/Resolver.antt =====
-- Runs of the resolvers and of the routing step, and their theorems at a concrete table.
use kaze.Base.{ℕ, ◌≡◌, refl, List, [], ◌∷◌, Bool, ◌==◌, Option, none}
use mathlib.Core.Option
use kaze.Protocol.Message.{SocketAddr, Destination, Message, from, set_destination}
use kaze.Resolver.Trait.{Visit}
use kaze.Resolver.Local as Local
use kaze.Resolver.Local.{local}
use kaze.Resolver.Service.{serve}
use kaze.Resolver.Service.Routing.{Goes, serve-Goes}
use kaze.Tests.MapModel.{Entries, maps, insert_entry}
use kaze.Tests.Protocol.{packet, addr}

abbrev table : Entries SocketAddr
table = insert_entry SocketAddr (insert_entry SocketAddr ([], tt) 0x101 addr) 0x102 addr

abbrev visits : List Visit
visits = (0x102, addr) ∷ (0x101, addr) ∷ []

masked_runs : Local.visit_masked_nodes (maps SocketAddr) 0x100 0xff00 table ≡ visits
unfolding Local.visit_masked_nodes Local.matching
masked_runs = refl

-- The first node is taken, the second is not.
abbrev first_only : ℕ → Bool
first_only n = n == 1

abbrev message : Message
message = from (packet, none)

serve-Goes_example :
    (d : Option Destination) × Goes (maps SocketAddr) 7 table message.packet.hdr.route_type d
    × (serve (local (maps SocketAddr)) first_only 7 message table
        ≡ (Option.map (λ x. set_destination x message) d, table))
serve-Goes_example = serve-Goes (maps SocketAddr) first_only 7 table refl message
