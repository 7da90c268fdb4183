-- ===== src/Lib.antt =====
-- Ghost Cache: publications that are replicated between nodes over a slow radio.
--
-- A host speaks to its radio modem over a serial line (internal/modem): messages are frames with a
-- checksum, written as COBS records that end in a zero byte, and a stream decoder finds them again
-- behind noise. Publications (internal/publication) are files cut into chunks, described by a
-- manifest that carries their SHA-256 hash; an assembly puts them together again, and an Ed25519
-- signature covers the manifest. Nodes (internal/node) announce what they have with inventories and
-- with a radix tree of publication IDs, compare trees level by level, ask each other for manifests,
-- signatures and batches of missing chunks, and decide by a policy what to fetch.
--
-- Common holds what all parts share: Boolean tests, lists measured by native numbers, the result
-- type of fallible code (Go's pairs of a value and an error), bytes and little-endian integers.
--
-- internal/modem
--   Modem.Crc        crc32.ChecksumIEEE of Go's standard library, bit by bit
--   Modem.Cobs       cobsEncode, cobsDecode (protocol.go); Reference is COBS as a recursion
--   Modem.Frame      Frame, EncodeFrame, DecodeFrame (protocol.go)
--   Modem.Decoder    StreamDecoder, Push (decoder.go)
--   Modem.Client     Client, Send, readAvailable, writeAll (client.go); Client.Request has
--                    requestWithRetry, Request, ReadFrame, ReadFrames, Info, SetConfig and Open,
--                    and Client.Laws what the port and the clock promise
--   Modem.Messages   RadioConfig, RXPacket, Result and their codecs (protocol.go)
-- internal/publication
--   Publication.Packet     Packet, EncodePacket, DecodePacket (protocol.go)
--   Publication.Manifest   Manifest, EncodeManifest, DecodeManifest, IDMatchesHash (protocol.go)
--   Publication.Chunk      EncodeChunk, DecodeChunk, EncodeSimple, EncodeError (protocol.go)
--   Publication.Receipt    EncodeReceipt, DecodeReceipt (protocol.go)
--   Publication.Assembly   NewAssembly, Add, Missing, Complete, Content (assembly.go)
--   Publication.Store      Begin, Add, Commit, Complete, Restart and others (store.go):
--                          the paths and what is read, with Store.Writes, Store.Begin and
--                          Store.Listing, which has IDs, PartialIDs, KnownIDs, WantedIDs
--   Publication.Catalog    Catalog, Resolve (catalog.go)
--   Publication.Signing    CanonicalManifest, SignManifest, VerifyManifestSignature (signing.go)
-- internal/node
--   Node.Kind, Node.Packet   packet types, Packet, Encode, Decode (protocol.go)
--   Node.Prefix      encodePrefix, decodePrefix, decodePrefixWithTail (protocol.go)
--   Node.Transfer    the messages about one publication (protocol.go)
--   Node.Ids         sortedIDs, FilterPrefix, MissingIDs, nibbleAt (radix.go)
--   Node.Inventory   InventoryPages, EncodeInventory, DecodeInventory (protocol.go)
--   Node.Radix       BuildSummary, BuildLeaf, DifferingChildren (radix.go); Radix.Wire has the
--                    summary and leaf messages (protocol.go)
--   Node.Scheduler   MissingBatch, Candidate.Source, Backoff, Jitter (scheduler.go)
--   Node.Controller  Observe, BatchSize, CanInitiate, Defer and others (controller.go)
--   Node.Policy      ParseSignaturePolicy, Accept (policy.go)
--   Node.Runtime     the state of a running node (runtime.go), with its operations in
--     Table            addCandidate, removeOrder, active, markSourceInspected, clearInspected
--     Radio            send, fail
--     Peers            handleRootSummary, queueReconciliation, dropReconciliation
--     Reconcile        serveSummary, acceptSummary, acceptLeaf, initiateReconcile
--     Serve            serveManifest, serveSignature, serveChunks
--     Accept           acceptManifest, acceptSignature, acceptChunk, refreshInventory
--     Turn             onTick, nextWork, initiate, advertise
--     Loop             NewRuntime, handleIncoming, Run
--     Invariant        the predicate IsRuntime, and what keeps it, handler by handler
--
-- The runtime receives packets (Loop) and hands them to the handlers of requests (Serve), of answers
-- (Accept, Reconcile) and of announcements (Peers); a tick (Turn) gives up what was not answered and
-- makes the next request. It calls the store, the controller, the scheduler, the policy and the tree.
--
-- internal/config
--   Config           Validate, RadioConfig, ParseSize (config.go)
--
-- State is passed explicitly: an operation of a struct takes the record of its fields and returns
-- the new one. A byte string is a list of natural numbers; that they are bytes, and that integers fit
-- their words, are hypotheses (IsBytes, IsPacket and so on), and wrap-around is written out where a
-- Go conversion cuts an integer. A float32 or a signed integer of the radio is its bit pattern. Maps
-- and sets of IDs are lists with a membership test. Loops over a slice are recursions on the list;
-- the loop of cobsDecode runs on as many rounds as there are bytes, which is enough as every round
-- moves on (Modem.Cobs.Decoded); the loop of bits runs on eight rounds, one for each bit of a byte.
--
-- SHA-256, Ed25519 and JSON are parameters of the definitions that use them, and the answer of the
-- trust store for a key is a field of the policy. The file system of the store is a map from paths to
-- contents, and a parameter says which writes and removals fail, and what those that fail leave: a
-- write the old file or the new one, a removal any part of the files. The floating-point pressure of
-- the controller is a parameter, random draws are arguments.
--
-- The serial port and the clock of the modem client are functions on a state of their own, and a
-- record of laws says what the client relies on: what is read and written can be seen from outside,
-- the clock does not go back, a read takes time, and it returns if a time-out has been set; without
-- one it may block for ever. The loop of requestWithRetry runs on one round
-- more than its time-out has nanoseconds, which is enough as each round reads; the loop of writeAll
-- on as many rounds as there are bytes (Modem.Client.Sends). ReadFrame and ReadFrames may wait for
-- ever, and say so when a read blocks or their fuel is used up.
--
-- The runtime's environment is a record of answers: which sends fail, what the random numbers and the
-- clock give, which policy and intervals are set. Its maps are lists, the acquisitions in the order
-- in which they were added; the code's loops over that map, whose order Go leaves open, are taken to
-- run in this order. A run is the list of what the radio reported, so that a theorem about runs is
-- about every order of packets and time-outs. The folders that a listing of the store sees are those
-- that hold a file. The uint64 counters are taken not to overflow.
--
-- Not modelled: log lines, the pause between two chunks, the radio link and its timing, the locks
-- of the modem client, reading the configuration file, the commands and the firmware.
pub mod Common
pub mod Modem
pub mod Publication
pub mod Node
pub mod Config
pub mod Tests
