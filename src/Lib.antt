-- ===== src/Lib.antt =====
-- A model of the observer of p2p-observer, a program that connects to many Bitcoin nodes and
-- publishes what they announce, with proofs about the parts that decide: which addresses it keeps
-- and dials, which headers it accepts, asks for and serves, and what a peer can make a session do.
--
-- The address manager (observer/src/addresses/mod.rs) is one task. It owns the book of addresses
-- and the ban list, hears gossip and the reports of the connection tasks, runs the operator's
-- commands, and once a second picks addresses to dial. The policy decides delays, classes and what
-- is forgotten. The header tree (observer/src/headertree.rs) is shared by the connection tasks. Each
-- of them is an attempt (observer/src/connection.rs), which reads frames (observer/src/transport.rs),
-- runs a session (observer/src/protocol.rs) that offers addresses to the manager and headers to the
-- tree, and reports how it ended.
--
-- Common           numbers, Boolean tests, lists, and hash maps as association lists. Every theorem
--                  holds for each order of such a list, so the order in which a hash map is walked
--                  is left open.
-- Float            the `f32` operations, a parameter: a value is its bit pattern, and the laws are
--                  those of IEEE 754 that the code relies on.
-- Policy           observer/src/addresses/policy.rs: classify, retry_delay_secs, exp_backoff,
--                  jitter and should_forget. A `u32` or a `u8` is a number, and saturation is a
--                  minimum.
-- PeerAddr         observer/src/addresses/peer_addr.rs: the keys of the book, with
--                  from_socket_addr, try_from, is_routable, base32 and Display. Parsing a text is
--                  not modelled; SHA3-256 and the text of an IPv6 address are parameters.
-- Banlist          observer/src/addresses/banlist.rs: contains and add. Reading and writing the
--                  file is not modelled.
-- Book             observer/src/addresses/book.rs: Book.Entry is `Entry` and what an event does to
--                  it, Book.State is `Book`, Book.Rng the xorshift generator, Book.Reservoir the
--                  sampling, Book.Ingest ingest and insert_manual, Book.Evict evict_batch,
--                  Book.Outcomes the record_ operations, Book.Allocate allocate, Book.Pick pick.
-- Manager          observer/src/addresses/mod.rs: an event of the loop in `run` with the time at
--                  which it is handled, and the dials that it starts. Manager.Worlds puts the
--                  connection tasks beside it, as a step relation. The reports that the bootstrap
--                  leaves in the queue before the manager runs (connection.rs, bootstrap_attempt)
--                  are a step of their own, possible while no task runs. Channels, logging and
--                  saving to disk are left out.
-- HeaderTree       observer/src/headertree.rs: HeaderTree.Tree is the state, the walks and the best
--                  chain, HeaderTree.Insert insert_inner and insert_batch, HeaderTree.Prune the
--                  pruning below a checkpoint, HeaderTree.Rejected the refusals,
--                  HeaderTree.Recovery recovery_due, HeaderTree.Locator the locators. Headers,
--                  their hashes, their work and their validation are the bitcoin library's, a
--                  parameter; a hash is a number, and the sum of the works is taken not to overflow
--                  its 256 bits. A height is a number where the source has a `u32`: a chain of 2^32
--                  headers is left out. A panic is `none`. chain_tips, save and load are not
--                  modelled.
-- Session          observer/src/protocol.rs: Session.Stats is `ConnectionStats`, Session.Bucket the
--                  token buckets, Session.Messages the messages and events, Session.State
--                  `Connection` and the handlers' monad, Session.Blocks the announcements of blocks
--                  and the requests for headers, Session.Inv, Session.Headers and Session.Gossip
--                  the handlers of blocks, headers and addresses, Session.Lenient
--                  parse_addrv2_leniently, Session.Dispatch the other handlers, handle_message and
--                  run, Session.Handshake version_handshake. A handler reads each clock once, and
--                  has the tree to itself; what it sends and publishes is a list. A socket takes so
--                  many messages, and the write after them fails. `f64` is a parameter like `f32`,
--                  with laws for whole numbers up to 2^53 and for the rounding of a refill, and so
--                  are compact sizes, the decoder of one address, and the limit on an INV. A
--                  block's hash is a number, and a command or a user agent is a list of characters.
--                  TCP samples, the fields that all events share and the logs are left out. A read
--                  that fails ends `run` from outside: the passes stop.
-- Attempt          observer/src/connection.rs: `classify` and its helpers, and in Attempt.Report
--                  connect_and_run, attempt and bootstrap_attempt. What connect_v1 and connect_v2
--                  return is an argument. An error is what the code asks of it by downcasting.
-- Transport        observer/src/transport.rs: `TransportV1Reader`, over a socket that hands out
--                  octets in pieces. The decoder, the hash and the limit on a payload are
--                  parameters.
-- Registry         observer/src/connections.rs: the live sessions by id, with what a snapshot of
--                  them shows. What `live` of protocol.rs puts in is left open.
-- Tests            runs on concrete inputs.
--
-- Loops are recursion on lists, or on fuel where the code walks: the walks down a chain have the
-- height and one more, since every step is one lower; the eviction of refusals has the length of
-- the queue, which every round shortens; the locator has the height and one more, since every step
-- is at least one; base32 writes at most three symbols for a byte.
--
-- Loops over what comes from outside are over the list of it: the passes of `run`, the messages of a
-- handshake, the segments of a socket. The loop of parse_addrv2_leniently counts down the entries that
-- the message declares, as the source's does.
--
-- Not modelled: in the connection attempts, the sockets and the proxies; in the sessions, the
-- timeouts around the handshake, emit_handshake and the registry's entry; in the transport, the v2
-- reader, whose packets the BIP324 library reads, and the writers. Of the rest, the snapshot, the
-- ban list's file, the settings, the publisher and the RPC are I/O and JSON; the tools (archive,
-- metrics, csv, logger, rpc, websocket) print, serve and store what is published.
pub mod Common
pub mod Float
pub mod Policy
pub mod PeerAddr
pub mod Banlist
pub mod Book
pub mod Manager
pub mod HeaderTree
pub mod Session
pub mod Attempt
pub mod Transport
pub mod Registry
pub mod Tests
