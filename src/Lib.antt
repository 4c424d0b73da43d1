-- ===== src/Lib.antt =====
-- The MIT 6.824 labs of this repository: Raft (src/raft), the replicated key/value service on it
-- (src/kvraft), the one-server key/value service (src/kvsrv), the sequential model that their tests
-- check histories against (src/models/kv.go), MapReduce (src/mr, src/main/mrsequential.go), and the
-- simulated network that the tests run the labs on (src/labrpc). Paths are relative to the
-- repository's root.
--
-- A Raft peer takes RPCs from other peers, replies to its own RPCs, timer ticks and commands of a
-- service, and hands committed entries and snapshots to the service over a channel. kvraft's server
-- is such a service: its RPC handlers start commands and wait, its loop applies what Raft commits and
-- has Raft cut its log. Clerks call the handlers until one answers. MapReduce's workers ask its
-- coordinator for tasks, and share files.
--
-- Conventions. A method that holds the lock for its whole body is a function from the state to the
-- new state and the reply; `none` of Option is a Go panic (a slice out of range, nil in a type
-- assertion, an explicit panic). What a method leaves to timers, condition variables and new
-- goroutines is listed in the field `events`, in order. Terms, indices and lengths are the native
-- numbers, and fields that the code lets fall to -1 are integers; int64 overflow is not modelled, as
-- all of them count up from 0 one at a time. Loops are structural over their list or their number of
-- rounds, and nothing runs out of fuel but the retry loop of kvraft's clerk, which has no end in the
-- source either and for which Clerk/Retry says what is enough; the decoding loop and the loop over
-- keys of MapReduce have a round for each byte and each pair, of which every round takes one at
-- least. A debug call is left out.
--
-- Raft, src/raft:
--   Raft/Types      raft_definition.go: state, entries, arguments and replies; events
--   Raft/Log        raft_util.go: positions over the snapshot (logIndex, realLogLen, isLogUpToDate, …)
--   Raft/Persist    persister.go; persist, readPersist and Make. labgob is the parameter `gob`, with
--                   `IsLossless` for what encoding/gob documents
--   Raft/Append     AppendEntries; Merge, Agreement, Committed and Conflict are about it
--   Raft/Vote       RequestVote, startElection with the replies, ticker
--   Raft/Leader     Start, broadcastHeartbeat, the two reply handlers, checkAndCommitLogs,
--                   findNextIndex, initializeLeaderEasilyLostState, heartbeatEvent, AddLogEvent,
--                   GetState, Kill, killed
--   Raft/Snapshot   Snapshot and InstallSnapshot
--   Raft/Applier    applierEvent, in the critical section that collects and the two around a send
--                   as functions of their own; `apply_batch` is the loop over a batch, with what
--                   other goroutines do to the peer before each message and around each send
--   Raft/Node       all of these as steps of one running peer
--   Raft/Cluster    several peers, with the goroutines of startElection and their requests and
--                   replies under way; restarts are left out, since readPersist loses the vote
--   Raft/Group      several peers that also replicate: a step is a peer's own (a command, a timer loop,
--                   the applier), one of Cluster's, an AppendEntries that is delivered, or its reply
--                   that is handled. An AppendEntries under way is an event of its sender and may be
--                   delivered any number of times, and so may a reply in `answers`; lost is what is
--                   not delivered. A Past, which no code reads, goes along in the proofs: the log of
--                   each term's leader and who had which of it. Restarts and snapshots are left out
--   Raft/Tests      concrete peers
-- The key/value service, src/kvraft:
--   KvRaft/Types    common.go and the types of server.go
--   KvRaft/Server   server.go. Get and PutAppend are cut at their wait: `get_begin` up to it,
--                   `get_end` behind it, with what came over the channel, if anything, as an argument
--   KvRaft/Locks    the goroutines of server.go around kv.mu and the unbuffered wake-up channels, as
--                   steps; PutAppend's test for a duplicate before Start is left out
--   KvRaft/Clerk    client.go. The answers of labrpc's Call, by round and server, are a parameter
--   KvRaft/Tests    concrete servers and clerks
-- The one-server service, src/kvsrv:
--   KvSrv/Server    server.go and common.go
--   KvSrv/Clerk     client.go, over a list of lost requests, lost answers, and other clients' requests
--   KvSrv/Tests     a concrete clerk and history
-- MapReduce, src/mr:
--   Mr/Types        rpc.go and the types of coordinator.go; `Run` for how a method ends
--   Mr/Coordinator  coordinator.go. A method is one step; a channel is the list of what it holds, and
--                   a send on a full one is the outcome `blocks`. Phases has calls as steps, one after
--                   another, though the code takes no lock and calls may overlap
--   Mr/Keys         KeyValue and its order
--   Mr/Grouping     the loop over sorted pairs, which worker.go and mrsequential.go share
--   Mr/Worker       worker.go: DoMap, DoReduce, and what the loop of Worker does with a reply. Files
--                   are a map from names to contents; strconv.Itoa, FNV, sort.Sort, encoding/json and
--                   fmt.Fprintf are parameters. Decoding has a round for each byte of its file, and
--                   every value it finds takes one at least
--   Mr/Sequential   src/main/mrsequential.go
--   Mr/Tests        a concrete coordinator, texts and functions
-- Labrpc            src/labrpc/labrpc.go: the network's ends, servers and connections, and processReq
--                   up to what it sends, with the network at its begin, at its last look and, in
--                   `deliver`, at the send, which long reordering delays
--   Labrpc/Tests    an end whose server is deleted
-- Models            src/models/kv.go
-- GoMap             Go's maps as association lists
-- Prelude           shared names, Boolean tests, lists over the native numbers, integers
--
-- Not modelled: src/labgob, which the labs only call, and of src/labrpc the calls by reflection, the
-- setters of its switches and the counters of replies; src/porcupine, another project's checker;
-- src/main but mrsequential.go, and src/mrapps; src/shardctrler and src/shardkv, which are skeletons;
-- the tests and their configuration. The RPC server and calls of src/mr are left out, and so are calls
-- of its coordinator that overlap and a worker that ends between the files it renames. A wake-up
-- channel is a list in KvRaft/Server, which takes what is sent at once; that it is unbuffered is the
-- subject of KvRaft/Locks.
pub mod Prelude
pub mod GoMap
pub mod Raft
pub mod KvRaft
pub mod KvSrv
pub mod Mr
pub mod Labrpc
pub mod Models
