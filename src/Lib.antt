-- ===== src/Lib.antt =====
-- Kaze is a sidecar for messages between game servers. A process (the host) exchanges packets with
-- its sidecar over a shared queue, sidecars exchange them over sockets, and a pipeline of services
-- decides about each packet: it is made a message, tracked if it is a request with a timeout, limited
-- in rate, and routed to the host, to a node or to many.
--
-- Parts and files (paths from the repository's root):
--   Base            numbers, lists, tests and the outcome type: a value, an error or a panic
--   Extern          the crates that the code calls, as records of operations and documented laws:
--                   bytes (Extern/Bytes), papaya's map and std's (Extern/Map), the delay queue
--                   (Extern/DelayQueue), tokio's Notify (Extern/Notify), moka's cache (Extern/Cache)
--                   and the cache of lru (Extern/Lru)
--   Protocol        crates/kaze-protocol: header types (Hdr; src/proto.rs, src/proto/kaze.rs),
--                   BufWrapper (Buf), decode_packet (Prefix), encode_packet (Encode) and the network
--                   codec (Codec) of src/codec.rs, packets and the buffers they are written from (Packet;
--                   src/packet.rs), messages (Message; src/message.rs)
--   Resolver        crates/kaze-resolver: the trait (Trait; src/resolver.rs), the resolver over one map
--                   (Local; src/local.rs), two in a row (Chain; src/chain.rs), one that keeps its
--                   answers (Cached; src/cached.rs) and the routing service (Service;
--                   src/service.rs)
--   Context         crates/kaze-plugin/src/context.rs: send_local, the plugins of a context (Components)
--                   and the loops that wait for trigger_exiting (Exit)
--   Tracker         crates/kaze-sidecar/src/plugins/tracker/mod.rs: record and assign_seq, and the main
--                   loop as one step for each event that its select! yields
--   RateLimit       crates/kaze-sidecar/src/plugins/ratelimit
--   Ring            crates/kaze-core/kaze.h: a queue in shared memory (Memory, Queue), the messages that
--                   stand in its bytes (Layout), and what its operations make of them (Front, Left and
--                   Oldest for the oldest message, Pop; Append, Push, Send for the last; Closing, Wait,
--                   Overrun)
--   Channel         crates/kaze-core/src: options, errors and modes, the calls over one queue (Calls;
--                   src/lib.rs) and the two halves (Halves; src/split.rs); Write, Read and Stuck have
--                   what the calls make of the messages
--   Edge            crates/kaze-edge/src/edge.rs: the sidecar's end of the channel
--   Flight          crates/kaze-util/src/singleflight.rs: calls for a key that share one work; Sharing,
--                   Leaders, Waiting, Race, Keyed and Single have what its runs come to
--   Corral          crates/kaze-sidecar/src/plugins/corral: the table of connections, the loop that
--                   reads one (Reads; mod.rs) and the sends (Sends; service.rs); Delivery has what
--                   reaches the other side
--   Service         crates/kaze-service/src/combiner.rs and src/map.rs: awaited services put together
--   Adaptor         crates/kaze-service/src/adaptor.rs: an awaited service as a polled one, whose clones
--                   share one state; Turns has one request at a time, Tasks several tasks with their futures, and
--                   Races what goes wrong between them
--   Sidecar         crates/kaze-sidecar/src: the plugins of the options (Layers; options.rs), and the
--                   pipeline that all services are put together to (Pipeline; builder.rs), with what
--                   becomes of a packet in one sidecar (Ways, Arrival, Relay) and in two (Hosts)
--   Tower           crates/kaze-util/src/tower_ext: polled services put together (Filter; filter.rs,
--                   Chain; chain.rs, Maybe; option.rs, Case; case.rs), a call of a service once it is ready
--                   (Turn; mod.rs) and a sink as a service (Sink; sink.rs); Tower/Future has what
--                   polling comes to
--   Config          crates/kaze-plugin/src/config_map: laying one TOML value over another (Merge;
--                   merge.rs), the files that a configuration is read from (Files; filefinder.rs) and
--                   the configurations by their types (Builder; mod.rs)
--   Tests           models of the crates, runs at concrete inputs and applied theorems
--
-- How they interact: the codec reads and writes packets; a message carries a packet with its source
-- and destination; the routing service asks a resolver, which is a record that the local
-- resolver, the chain and the cached resolver fill; the tracker hands its answers to the pipeline by send_local.
-- The edge reads packets from a channel and writes them to it, and a channel is a set of calls over the
-- queues in shared memory. The corral writes a packet's bytes to the connection to a node, and gets a new
-- connection through single flight, which stands there as a parameter. The pipeline hands a message from
-- the routing service to the tracker, the plugins' filter, the corral and the edge, until one takes it; its
-- state is what these keep. The files of a configuration are merged one over the other, the value that
-- comes of them and the command line are made the configurations, and from these the options build the
-- plugins and their filter.
--
-- The polled combinators are state machines: a future is a state that a poll turns into a new one or
-- into an outcome, and a service is a record of poll_ready, call, clone and its future's poll. The
-- awaited combinators are the specification that they refine.
--
-- State is passed explicitly. An operation of &mut self takes the state and returns the new one; an
-- await is a call. A visitor that is passed to a resolver is the list of its calls in order. Of a
-- concurrent map each operation is taken to be atomic. Bytes are natural numbers, `as u32` and
-- to_le_bytes cut to 32 bits, and lengths are unbounded: a buffer is taken to fit the memory. The
-- header's code is prost's: a record of encode, decode and encoded_len, with the round trip at the
-- header in question as a hypothesis (Codes). The random draws of the routing service and the
-- grants of the limiters are functions that the model takes.
--
-- A queue in shared memory is a record of kzQ_ShmInfo with its bytes, which are a function of the
-- position. One atomic operation is one step; a wait is a list of what the other side makes of the
-- queue between two looks, and a wait that outlasts the list has no result.
--
-- Fuel: BufMut::put copies a Buf chunk by chunk. A packet's buffer has at most two chunks, so three
-- rounds are enough; the round trip shows that encode returns.
--
-- Not modelled: sockets, tasks, logging, metrics, options and process start, which are I/O; the
-- generated prost code and the expansion of it, which is third-party; the object pool, whose buffers
-- are cleared when they go back; the printer of documented TOML and its derive macro, which work on
-- token streams; the client of Consul; futexes, process ids and the mapping of the shared memory.
pub mod Base
pub mod Extern
pub mod Protocol
pub mod Resolver
pub mod Context
pub mod Tracker
pub mod RateLimit
pub mod Ring
pub mod Channel
pub mod Edge
pub mod Flight
pub mod Corral
pub mod Service
pub mod Adaptor
pub mod Tower
pub mod Config
pub mod Sidecar
pub mod Tests
