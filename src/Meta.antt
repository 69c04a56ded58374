-- ===== src/Meta.antt =====
-- The messages of src/api/engula/server/v1/metadata.proto, src/api/engula/server/v1/node.proto and
-- src/server/proto/v1/metadata.proto that the modelled code reads and writes, and the accessors of
-- src/api/src/migration.rs and src/server/src/serverpb.rs. A field of enumeration type is an i32 in
-- the code, which reads it by `from_i32`; here it is what that call returns, `none` for a number
-- that the enumeration does not have. Bytes are a list of numbers, and an f64 is its bits.
use Prim.Native.String.{String}
use engula.Prelude.{ℕ, Bool, true, false, Option, none, some, List, [], Outcome, ok, unwrap, ◌>>=◌}

abbrev pub Bytes : Type 0
Bytes = List ℕ

pub data ReplicaRole : Type 0 where
  voter learner incoming_voter demoting_voter : ReplicaRole

pub record ReplicaDesc : Type 0 where
  pub id : ℕ
  pub node_id : ℕ
  pub role : Option ReplicaRole

pub record HashPartition : Type 0 where
  pub slot_id : ℕ
  pub slots : ℕ

pub record RangePartition : Type 0 where
  pub start : Bytes
  pub end : Bytes

pub data Partition : Type 0 where
  hash : HashPartition → Partition
  range : RangePartition → Partition

pub record ShardDesc : Type 0 where
  pub id : ℕ
  pub collection_id : ℕ
  pub partition : Option Partition

pub record GroupDesc : Type 0 where
  pub id : ℕ
  pub epoch : ℕ
  pub shards : List ShardDesc
  pub replicas : List ReplicaDesc

pub data NodeStatus : Type 0 where
  active cordoned draining drained decommissioning decommissioned : NodeStatus

pub record NodeCapacity : Type 0 where
  pub cpu_nums : ℕ
  pub replica_count : ℕ
  pub leader_count : ℕ

pub record NodeDesc : Type 0 where
  pub id : ℕ
  pub addr : String
  pub capacity : Option NodeCapacity
  pub status : Option NodeStatus

pub record RootDesc : Type 0 where
  pub epoch : ℕ
  pub root_nodes : List NodeDesc

pub data RaftRole : Type 0 where
  follower candidate leader pre_candidate : RaftRole

pub record ReplicaState : Type 0 where
  pub replica_id : ℕ
  pub group_id : ℕ
  pub term : ℕ
  pub voted_for : ℕ
  pub role : Option RaftRole
  pub node_id : ℕ

pub record MigrationDesc : Type 0 where
  pub shard_desc : Option ShardDesc
  pub src_group_id : ℕ
  pub src_group_epoch : ℕ
  pub dest_group_id : ℕ
  pub dest_group_epoch : ℕ

pub record ScheduleState : Type 0 where
  pub group_id : ℕ
  pub epoch : ℕ
  pub incoming_replicas : List ReplicaDesc
  pub outgoing_replicas : List ReplicaDesc

pub data ChangeReplicaType : Type 0 where
  add remove add_learner : ChangeReplicaType

pub record ChangeReplica : Type 0 where
  pub change_type : Option ChangeReplicaType
  pub replica_id : ℕ
  pub node_id : ℕ

pub record ChangeReplicas : Type 0 where
  pub changes : List ChangeReplica

-- `ApplyState` is another name of it.
pub record EntryId : Type 0 where
  pub index : ℕ
  pub term : ℕ

pub data ReplicaLocalState : Type 0 where
  initial pending normal terminated tombstone : ReplicaLocalState

pub data MigrationStep : Type 0 where
  prepare migrating migrated finished aborted : MigrationStep

pub record MigrationState : Type 0 where
  pub migration_desc : Option MigrationDesc
  pub last_migrated_key : Bytes
  pub step : Option MigrationStep

pub data MigrationEvent : Type 0 where
  setup ingest commit abort apply : MigrationEvent

pub record Migration : Type 0 where
  pub event : Option MigrationEvent
  pub migration_desc : Option MigrationDesc
  pub last_ingested_key : Bytes

pub record AddShard : Type 0 where
  pub shard : Option ShardDesc

pub record SyncOp : Type 0 where
  pub add_shard : Option AddShard
  pub purge_replica : Option ℕ
  pub migration : Option Migration

-- The batch is the bytes of a write batch.
pub record EvalResult : Type 0 where
  pub batch : Option Bytes
  pub op : Option SyncOp

pub record ShardData : Type 0 where
  pub key : Bytes
  pub value : Bytes
  pub version : ℕ

-- src/server/src/node/migrate/ctrl.rs
pub record ForwardCtx : Type 0 where
  pub shard_id : ℕ
  pub dest_group_id : ℕ
  pub payloads : List ShardData

-- src/api/engula/server/v1/root.proto and src/api/engula/v1/metadata.proto; an event that is not set
-- is left out.
pub record GroupState : Type 0 where
  pub group_id : ℕ
  pub leader_id : Option ℕ
  pub replicas : List ReplicaState

pub record DatabaseDesc : Type 0 where
  pub id : ℕ
  pub name : String

pub data CollectionPartition : Type 0 where
  by_hash : ℕ → CollectionPartition
  by_range : CollectionPartition

pub record CollectionDesc : Type 0 where
  pub id : ℕ
  pub name : String
  pub db : ℕ
  pub partition : Option CollectionPartition

pub data UpdateEvent : Type 0 where
  update_node : NodeDesc → UpdateEvent
  update_group : GroupDesc → UpdateEvent
  update_group_state : GroupState → UpdateEvent
  update_database : DatabaseDesc → UpdateEvent
  update_collection : CollectionDesc → UpdateEvent

pub data DeleteEvent : Type 0 where
  delete_node delete_group delete_group_state delete_database delete_collection : ℕ → DeleteEvent

abbrev pub is_leader : Option RaftRole → Bool
is_leader (some leader) = true
is_leader _ = false

abbrev pub is_step : MigrationStep → Option MigrationStep → Bool
is_step prepare (some prepare) = true
is_step migrating (some migrating) = true
is_step migrated (some migrated) = true
is_step finished (some finished) = true
is_step aborted (some aborted) = true
is_step _ _ = false

module _ {ℓ} {E : Type ℓ} where
  -- `MigrationDesc::get_shard_desc`
  abbrev pub get_shard_desc : MigrationDesc → Outcome E ShardDesc
  get_shard_desc m = unwrap m.shard_desc

  -- `MigrationState::get_migration_desc`
  abbrev pub get_migration_desc : MigrationState → Outcome E MigrationDesc
  get_migration_desc s = unwrap s.migration_desc

  -- `MigrationState::get_shard_desc`
  abbrev pub state_shard_desc : MigrationState → Outcome E ShardDesc
  state_shard_desc s = get_migration_desc s >>= get_shard_desc

  -- `MigrationState::get_shard_id`
  abbrev pub state_shard_id : MigrationState → Outcome E ℕ
  state_shard_id s = state_shard_desc s >>= λ d. ok d.id

abbrev no_op : SyncOp
no_op = record { add_shard = none; purge_replica = none; migration = none }

-- `SyncOp::add_shard`
abbrev pub op_add_shard : ShardDesc → SyncOp
op_add_shard shard = record no_op { add_shard = some (record { shard = some shard }) }

-- `SyncOp::migration`
abbrev pub op_migration : MigrationEvent → MigrationDesc → SyncOp
op_migration event desc = record no_op {
  migration =
      some (record { event = some event; migration_desc = some desc; last_ingested_key = [] });
}

-- `SyncOp::ingest`
abbrev pub op_ingest : Bytes → SyncOp
op_ingest key = record no_op {
  migration = some (record { event = some ingest; migration_desc = none; last_ingested_key = key });
}
