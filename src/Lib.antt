-- ===== src/Lib.antt =====
-- A model of the core of the mixnet, with its theorems. A node cuts messages into fragments, puts
-- each into a Sphinx packet that takes a route through the mixnodes of a session, and puts the
-- fragments that reach it together again.
--
-- Parts:
--   * Scattered: src/core/scattered.rs. A slice in several pieces; its specification is the vector of
--     its elements (`to_vec`). A request is handed to the fragments in this form.
--   * Sphinx: src/core/sphinx/packet.rs and target.rs. The sizes of the parts of a packet, from
--     which the size of a fragment is computed, and mixnode indices. Sphinx/Packages has the
--     operations of the packages with their laws, Sphinx/Crypto is crypto.rs and Sphinx/Delay delay.rs;
--     Sphinx/Header is `build_header` and Sphinx/Build the rest of build.rs; Sphinx/Peel is peel.rs.
--     Sphinx/Onion describes a header by its nested layers, which Sphinx/Passes, Sphinx/Layers and
--     Sphinx/Refinement find in what is built, and Sphinx/Travel takes a packet from node to node.
--   * Fragment: src/core/fragment.rs. The layout of a fragment and `check_fragment`; Fragment/Message
--     is `GenericMessage::from_fragments` and `IncompleteMessage`; Fragment/Assembler is
--     `FragmentAssembler` with its eviction; Fragment/Blueprint is `fragment_blueprints` and
--     `FragmentBlueprint`; Fragment/RoundTrip joins the two directions.
--   * LinkedHashMap: the map of the package hashlink as a record of operations and of laws, which
--     the assembler takes as a parameter, and an instance on association lists.
--   * Sessions: src/core/sessions.rs. Session indices, phases and slots.
--   * Mixnet: src/core/mod.rs. The state that says which sessions there are, `set_session_status`,
--     `post_session` and the event flags.
--   * PacketQueues: src/core/packet_queues.rs. The queue of the packets to forward, over BinaryHeap,
--     an interface for the heap of the standard library with an instance on lists, and the queue of
--     authored packets.
--   * SurbKeystore: src/core/surb_keystore.rs, over the interface LinkedHashMap.
--   * Topology: src/core/topology.rs. Topology/RouteGenerator has the random choices, over Rng, an
--     interface for the generators of the package rand; Topology/Route is `gen_route`, whose loop
--     runs over the number of hops, and Topology/Creation the two constructors.
--   * Cover: src/core/cover.rs, over Topology and Sphinx.
--   * RequestBuilder: src/core/request_builder.rs, over Topology and Sphinx. The closure that writes the
--     payload data is a function argument.
--   * KxPair: src/core/kx_pair.rs, over Sphinx/Crypto.
--   * RequestManager: src/request_manager. RequestManager/PostQueues is post_queues.rs,
--     RequestManager/Posting is `process_post_queue`, RequestManager/Retrying is `retry` and its
--     callers, and RequestManager/Updating is `update_session_status` and `remove`. The mixnet core,
--     the clock and the generator are the parameter `World`, and the handlers of a request, which
--     take it away, are recorded as outcomes. RequestManager/Weights counts the requests by weights. A duration is a number; its overflow is not modelled.
--   * ReplyManager: src/reply_manager.rs, over LinkedHashMap and a parameter `World` of its own.
--     ReplyManager/Steps has the calls in sequence, ReplyManager/Repeats repeated requests.
--   * ReplayFilter: src/core/replay_filter.rs. The hash is a parameter, and the array of words is a
--     function of the index.
--   * Base: lists, slices and bytes over the native numbers, and Boolean tests.
--
-- Correspondence: a function has the name of the source in lower case with underscores, and the
-- parts of a long function are functions of their own. A byte is a number, and a slice or an array
-- is the list of its elements. `none` is a panic (a failed slice, `expect`, a subtraction that would
-- wrap) unless the file says otherwise. An operation on `&mut self` returns the new state. Casts to
-- u8, u16 and u32 are remainders, and saturating operations stop at 2 ^ 64 - 1. The fields `data`
-- of the source are called `payload` and `contents`, since `data` is a keyword here. A loop is a
-- recursion on a list or on a number, of fragments or of hops. Only the loop of `process_post_queue`
-- runs on fuel, one more than the posts that the requests of the queue may still take (`turns`).
--
-- Not modelled: log output, debug assertions, formatting, the inside of the packages for random
-- numbers and cryptography and of floating point, whose operations are interfaces, and the parts of
-- the repository that the list above does not name.
pub mod Base
pub mod BinaryHeap
pub mod Cover
pub mod Fragment
pub mod KxPair
pub mod LinkedHashMap
pub mod Mixnet
pub mod PacketQueues
pub mod ReplayFilter
pub mod ReplyManager
pub mod RequestBuilder
pub mod RequestManager
pub mod Rng
pub mod Scattered
pub mod Sessions
pub mod Sphinx
pub mod SurbKeystore
pub mod Topology
