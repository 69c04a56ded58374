-- ===== src/Lib.antt =====
-- Models and proofs for the storage server of engula: the replicated state of a group, from the raft
-- log up to the requests on its data, what the root server keeps of the groups, and the tables by
-- which a client finds them.
--
-- A group is a set of replicas that raft keeps in step. Committed entries reach the group's state
-- machine, which changes the group descriptor (its shards, its replicas, its epoch) and the state of
-- a shard migration, stages both with the write batches of the data, and commits them together to
-- the group engine; an observer carries the outcome to the lease state of the replica, by which a
-- request is checked before a command makes a write batch of it or reads the engine. Nodes report
-- descriptors and replica states to the root server, which sends them on to its watchers; the router
-- of a client keeps them, to find the group of a shard.
--
-- Prelude and its children: shared names; the outcome of a call (a value, an error, a panic), and
--   u64 arithmetic and assertions by build profile.
-- Meta: the messages of src/api/engula/server/v1/metadata.proto, node.proto and root.proto,
--   src/api/engula/v1/metadata.proto and
--   src/server/proto/v1/metadata.proto. Error: src/server/src/error.rs.
-- ConfigChange: the changes of replicas in src/server/src/node/replica/fsm/mod.rs
--   (`apply_simple_change`, `apply_enter_joint`, `apply_leave_joint`). Its child ConfState is
--   `conf_state_from_group_descriptor` of src/server/src/raftgroup/mod.rs.
-- Engine: the states that a group engine keeps in memory (`apply_core_states`, `group_commit`,
--   `WriteStates::write` of src/server/src/node/engine/group.rs); Engine.Keys: the layout of the
--   versioned keys (`mod keys` there); Engine.Batch: the writes of versions to a batch;
--   Engine.Snapshot: the iterators over the versions, and the reads.
-- Fsm: what one entry stages (`apply` and all below it in src/server/src/node/replica/fsm/mod.rs);
--   Fsm.Machine: `start_plug`, `finish_plug` and the observer's calls.
-- RaftLog: the raft log of a replica. RaftLog.Cache is `EntryCache` and RaftLog.Storage is `Storage`
--   of src/server/src/raftgroup/storage.rs: its state and writes, what raft reads from it
--   (RaftLog.Storage.Reads), its opening and its compaction; RaftLog.Bootstrap is
--   `write_initial_state`. `StandsFor` (RaftLog.Storage.Terms)
--   relates it to the log as one list.
-- Lease: the lease state of a replica and the observer that keeps it, of
--   src/server/src/node/replica/state.rs: what it broadcasts, wakes and sends is a list of effects.
-- ShardKeys: src/api/src/shard.rs, which keys belong to a shard.
-- Router: the tables of a client, src/client/src/router.rs: what an event of the root server does to
--   them, and the queries (Router.Find). HashMap has the maps, as association lists.
-- Replica: a request to a replica, src/server/src/node/replica/mod.rs, retry.rs and eval: the checks
--   before it is executed, the commands (Replica.Eval, Replica.Purge), what is asked of the raft node
--   (Replica.Execute) and the retries (Replica.Retry), whose attempts are a list. The loops over the
--   versions of the engine have fuel for each item of the iterator and two more, which is enough.
-- Root: what the root server makes of reports and of the answers to heartbeats
--   (src/server/src/root/mod.rs, heartbeat.rs and schema.rs), until when a node counts as alive
--   (Root.Liveness, src/server/src/root/liveness.rs), and the watchers (Root.Watch,
--   src/server/src/root/watch.rs).
-- RouteTable: the tables of a node's replicas and raft nodes, src/server/src/node/route_table.rs.
--
-- The loops over replicas, changes, shards and entries are recursions on the list, so no fuel is
-- needed; the loops over the groups of a key have the number of bytes as fuel, which is at least the
-- number of groups. A u64 that does not fit panics in a build with checks and wraps in another one; the
-- argument `checks` says which, and it also turns the debug assertions on. A proto field of
-- enumeration type is what `from_i32` makes of it. A hash map is an association list, or the list of
-- its keys where only membership is asked.
--
-- Not modelled: the database and the raft crate, which are parameters; log lines and metrics; the
-- root server's jobs and schema, the client's calls and the scheduler; network services and
-- background tasks.
pub mod Prelude
pub mod Meta
pub mod Error
pub mod ConfigChange
pub mod Engine
pub mod Fsm
pub mod HashMap
pub mod Router
pub mod Lease
pub mod ShardKeys
pub mod RaftLog
pub mod Replica
pub mod Root
pub mod RouteTable
