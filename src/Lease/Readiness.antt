-- ===== src/Lease/Readiness.antt =====
-- When the observer of src/server/src/node/replica/state.rs tells others what it knows.
use engula.Lease.{
  Effect, LeaseState, ReplicaInfo, broadcast_group_descriptor, is_raft_leader, is_ready_for_serving,
  send_migration_state, wake,
}
use engula.Prelude.{All, List, some, true, ◌≡◌}
use Prim.Native.String.{String}

-- Waiters are woken and the controller is told of a migration by a leader that has applied an entry
-- of its term, and group descriptors are broadcast by a leader; all with what the state holds.
abbrev pub IsAllowed : LeaseState → Effect → Type 0
IsAllowed s (wake _) = is_ready_for_serving s ≡ true
IsAllowed s (send_migration_state m) =
    (is_ready_for_serving s ≡ true) × (s.migration_state ≡ some m)
IsAllowed s (broadcast_group_descriptor _ d) = (is_raft_leader s ≡ true) × (s.descriptor ≡ d)
IsAllowed s _ = Unit

module _ (info : ReplicaInfo) where
  -- A state and effects that it allows.
  pub AllowsAll : LeaseState × List Effect → Type 0
  AllowsAll r = All (IsAllowed r.0) r.1
