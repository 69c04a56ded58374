-- ===== src/RaftLog.antt =====
-- The raft log of a replica, src/server/src/raftgroup/storage.rs: the cache of recent entries and
-- the storage that raft reads. The raft engine on disk is another crate: a parameter. An index is
-- taken to stay below the last u64, so that `index + 1` does not wrap.
pub mod Cache
pub mod Storage
pub mod Bootstrap
mod Examples
