-- ===== src/Lease.antt =====
-- src/server/src/node/replica/state.rs: what a replica knows of its leader, its group and its
-- migration, and the observer that keeps it. What leaves the state (a broadcast, a waker, a message
-- to the controller of migrations) is a list of effects, in order; log lines are left out. A map of
-- wakers is the list of their names.
pub mod Readiness
mod Examples
use engula.Fsm.{Notification, descriptor_updated, migrate_state_updated, term_updated}
use engula.Meta.{
  state_shard_id, GroupDesc, MigrationState, RaftRole, ReplicaDesc, ReplicaState, ScheduleState,
  follower, is_leader,
}
use engula.Prelude.{
  false, ok, ◌>>=◌, Bool, List, Option, [], find, if◌then◌else◌, is_some, map, none, some, ℕ, ◌&&◌,
  ◌++◌, ◌==◌, ◌∷◌,
}
use engula.RaftLog.Storage.Reads.{term}
use engula.Error.{Result}
use Prim.Native.String.{String}

-- The ids of `ReplicaInfo` that the observer reads.
pub record ReplicaInfo : Type 0 where
  pub replica_id : ℕ
  pub group_id : ℕ
  pub node_id : ℕ

pub record LeaseState : Type 0 where
  pub leader_id : ℕ
  pub applied_term : ℕ
  pub replica_state : ReplicaState
  pub descriptor : GroupDesc
  pub migration_state : Option MigrationState
  pub schedule_state : ScheduleState
  pub leader_subscribers : List String

pub data Effect : Type 0 where
  broadcast_replica_state : ℕ → ReplicaState → Effect
  broadcast_group_descriptor : ℕ → GroupDesc → Effect
  broadcast_schedule_state : ℕ → ScheduleState → Effect
  wake : String → Effect
  send_migration_state : MigrationState → Effect
  close_channel : Effect

-- The calls of `StateObserver`, `StateMachineObserver` and `ScheduleStateObserver`.
pub data ObserverCall : Type 0 where
  state_updated : ℕ → ℕ → ℕ → RaftRole → ObserverCall
  notified : Notification → ObserverCall
  schedule_state_updated : ScheduleState → ObserverCall

-- `ReplicaState::default` and `ScheduleState::default`
abbrev default_replica_state : ReplicaState
default_replica_state = record {
  replica_id = 0;
  group_id = 0;
  term = 0;
  voted_for = 0;
  role = some follower;
  node_id = 0;
}

abbrev default_schedule_state : ScheduleState
default_schedule_state = record {
  group_id = 0;
  epoch = 0;
  incoming_replicas = [];
  outgoing_replicas = [];
}

-- `LeaseState::new`
abbrev pub new : GroupDesc → Option MigrationState → LeaseState
new descriptor migration_state = record {
  leader_id = 0;
  applied_term = 0;
  replica_state = default_replica_state;
  descriptor = descriptor;
  migration_state = migration_state;
  schedule_state = default_schedule_state;
  leader_subscribers = [];
}

abbrev pub is_raft_leader : LeaseState → Bool
is_raft_leader s = is_leader s.replica_state.role

abbrev pub is_log_term_matched : LeaseState → Bool
is_log_term_matched s = s.applied_term == s.replica_state.term

abbrev pub is_ready_for_serving : LeaseState → Bool
is_ready_for_serving s = is_raft_leader s && is_log_term_matched s

abbrev pub is_migrating : LeaseState → Bool
is_migrating s = is_some s.migration_state

-- Without a migration it is false.
unfoldable pub is_migrating_shard : ℕ → LeaseState → Result Bool
is_migrating_shard shard_id s = elim s.migration_state [
  | none ↦ ok false
  | some m ↦ state_shard_id m >>= λ id. ok (id == shard_id)
]

unfoldable pub leader_descriptor : LeaseState → Option ReplicaDesc
leader_descriptor s = find (λ r. r.id == s.leader_id) s.descriptor.replicas

unfoldable pub wake_all_waiters : LeaseState → LeaseState × List Effect
wake_all_waiters s = (record s { leader_subscribers = [] }, map wake s.leader_subscribers)

unfoldable pub terminate : LeaseState → LeaseState × List Effect
unfolding wake_all_waiters
terminate s = ((wake_all_waiters s).0, (wake_all_waiters s).1 ++ close_channel ∷ [])

-- The message to the controller, if there is a migration.
abbrev pub send_migration : Option MigrationState → List Effect
send_migration none = []
send_migration (some s) = send_migration_state s ∷ []

module _ (info : ReplicaInfo) where
  abbrev new_replica_state : ℕ → ℕ → RaftRole → ReplicaState
  new_replica_state voted_for term role = record {
    replica_id = info.replica_id;
    group_id = info.group_id;
    term = term;
    voted_for = voted_for;
    role = some role;
    node_id = info.node_id;
  }

  -- `update_replica_state` and the broadcasts of `on_state_updated`.
  unfoldable pub on_state_updated : ℕ → ℕ → ℕ → RaftRole → LeaseState → LeaseState × List Effect
  on_state_updated leader_id voted_for term role s = (
    record s { leader_id = leader_id; replica_state = new_replica_state voted_for term role },
    broadcast_replica_state info.group_id (new_replica_state voted_for term role)
        ∷ (if is_leader (some role)
            then broadcast_group_descriptor info.group_id s.descriptor ∷ []
            else []),
  )

  unfoldable pub on_descriptor_updated : GroupDesc → LeaseState → LeaseState × List Effect
  on_descriptor_updated descriptor s = (
    record s { descriptor = descriptor },
    if is_raft_leader s then broadcast_group_descriptor info.group_id descriptor ∷ [] else [],
  )

  unfoldable pub on_term_updated : ℕ → LeaseState → LeaseState × List Effect
  unfolding wake_all_waiters
  on_term_updated term s =
      let s' = record s { applied_term = term } in
      if is_ready_for_serving s'
      then ((wake_all_waiters s').0, (wake_all_waiters s').1 ++ send_migration s'.migration_state)
      else (s', [])

  unfoldable pub on_migrate_state_updated :
      Option MigrationState → LeaseState → LeaseState × List Effect
  on_migrate_state_updated migration_state s =
      let s' = record s { migration_state = migration_state } in
      (s', if is_ready_for_serving s' then send_migration migration_state else [])

  unfoldable pub on_schedule_state_updated : ScheduleState → LeaseState → LeaseState × List Effect
  on_schedule_state_updated schedule_state s = (
    record s { schedule_state = schedule_state },
    broadcast_schedule_state info.group_id schedule_state ∷ [],
  )

  -- A call of the state machine's observer.
  unfoldable pub observe : Notification → LeaseState → LeaseState × List Effect
  unfolding on_descriptor_updated on_term_updated on_migrate_state_updated
  observe (descriptor_updated d) s = on_descriptor_updated d s
  observe (term_updated t) s = on_term_updated t s
  observe (migrate_state_updated m) s = on_migrate_state_updated m s

  -- A call of one of the three observers.
  unfoldable pub observe_call : ObserverCall → LeaseState → LeaseState × List Effect
  observe_call (state_updated leader_id voted_for term role) s =
      on_state_updated leader_id voted_for term role s
  observe_call (notified n) s = observe n s
  observe_call (schedule_state_updated schedule_state) s =
      on_schedule_state_updated schedule_state s

  unfoldable pub observe_all : List Notification → LeaseState → LeaseState × List Effect
  observe_all [] s = (s, [])
  observe_all (n ∷ ns) s =
      let first = observe n s in let rest = observe_all ns first.0 in (rest.0, first.1 ++ rest.1)
