-- ===== src/Replica.antt =====
-- src/server/src/node/replica/mod.rs: the requests to a replica and what is checked before one is
-- executed. The lock that orders changes of metadata after all else is named by the kind of guard
-- that a request takes.
pub mod Eval
pub mod Purge
pub mod Execute
pub mod Retry
pub mod Admission
pub mod Retries
pub mod Iterator
pub mod Loops
mod Examples
use engula.Error.{epoch_not_match, group_not_ready, not_leader, service_is_busy, Result}
use engula.Lease.{
  is_log_term_matched, is_migrating, is_raft_leader, is_ready_for_serving, leader_descriptor,
  LeaseState, ReplicaInfo,
}
use engula.Meta.{
  Bytes, ShardDesc, MigrationDesc, ChangeReplicas, ReplicaDesc, ScheduleState, MigrationState,
  GroupDesc,
}
use engula.Prelude.{
  and_then, debug_assert, err, false, if◌then◌else◌, is_some, ltb, none, not, ok, some, true, ◌&&◌,
  ◌==◌, ◌>>◌, Bool, List, Option, ℕ,
}

pub record PutRequest : Type 0 where
  pub key : Bytes
  pub value : Bytes

-- Of `GetRequest` and `DeleteRequest`, the key.
pub record ShardGetRequest : Type 0 where
  pub shard_id : ℕ
  pub get : Option Bytes

pub record ShardPutRequest : Type 0 where
  pub shard_id : ℕ
  pub put : Option PutRequest

pub record ShardDeleteRequest : Type 0 where
  pub shard_id : ℕ
  pub delete : Option Bytes

pub record ShardPrefixListRequest : Type 0 where
  pub shard_id : ℕ
  pub prefix : Bytes

pub record BatchWriteRequest : Type 0 where
  pub deletes : List ShardDeleteRequest
  pub puts : List ShardPutRequest

pub record AcceptShardRequest : Type 0 where
  pub src_group_id : ℕ
  pub src_group_epoch : ℕ
  pub shard_desc : Option ShardDesc

pub record MoveReplicasRequest : Type 0 where
  pub incoming_voters : List ReplicaDesc
  pub outgoing_voters : List ReplicaDesc

pub data Request : Type 0 where
  get_request : ShardGetRequest → Request
  put_request : ShardPutRequest → Request
  delete_request : ShardDeleteRequest → Request
  prefix_list_request : ShardPrefixListRequest → Request
  batch_write_request : BatchWriteRequest → Request
  create_shard_request : Option ShardDesc → Request
  change_replicas_request : Option ChangeReplicas → Request
  accept_shard_request : AcceptShardRequest → Request
  transfer_request : ℕ → Request
  move_replicas_request : MoveReplicasRequest → Request

pub data Response : Type 0 where
  get_response : Option Bytes → Response
  prefix_list_response : List Bytes → Response
  move_replicas_response : ScheduleState → Response
  put_response delete_response batch_write_response create_shard_response change_replicas_response
        accept_shard_response transfer_response :
      Response

pub record ExecCtx : Type 0 where
  pub group_id : ℕ
  pub replica_id : ℕ
  pub forward_shard_id : Option ℕ
  pub epoch : ℕ
  pub migration_desc : Option MigrationDesc

-- `ExecCtx::with_epoch`, `ExecCtx::forward` and `ExecCtx::reset`
abbrev pub with_epoch : ℕ → ExecCtx
with_epoch epoch = record {
  group_id = 0;
  replica_id = 0;
  forward_shard_id = none;
  epoch = epoch;
  migration_desc = none;
}

abbrev pub forwarding : ℕ → ExecCtx
forwarding shard_id = record (with_epoch 0) { forward_shard_id = some shard_id }

abbrev pub reset : ExecCtx → ExecCtx
reset ctx = record ctx { migration_desc = none }

-- `ExecCtx::is_migrating_shard`
abbrev pub ctx_migrates : ExecCtx → ℕ → Bool
ctx_migrates ctx shard_id = elim (and_then ctx.migration_desc λ m. m.shard_desc) [
  | none ↦ false
  | some d ↦ d.id == shard_id
]

abbrev pub is_change_meta_request : Request → Bool
is_change_meta_request (change_replicas_request _) = true
is_change_meta_request (create_shard_request _) = true
is_change_meta_request (accept_shard_request _) = true
is_change_meta_request (move_replicas_request _) = true
is_change_meta_request (transfer_request _) = true
is_change_meta_request _ = false

-- `take_acl_guard`
pub data MetaAclGuard : Type 0 where
  read_guard write_guard : MetaAclGuard

abbrev is_move_replicas : Request → Bool
is_move_replicas (move_replicas_request _) = true
is_move_replicas _ = false

unfoldable pub take_acl_guard : Request → MetaAclGuard
take_acl_guard request =
    if is_change_meta_request request && not (is_move_replicas request)
    then write_guard
    else read_guard

abbrev pub is_accept_shard : Request → Bool
is_accept_shard (accept_shard_request _) = true
is_accept_shard _ = false

module _ (info : ReplicaInfo) where
  -- The context gets the ids of the replica whatever comes of the checks.
  abbrev pub identified : ExecCtx → ExecCtx
  identified ctx = record ctx { group_id = info.group_id; replica_id = info.replica_id }

  -- The checks of a request that is not forwarded from another group.
  unfoldable pub unforwarded : Bool → LeaseState → ExecCtx → Request → Result ExecCtx
  unforwarded checks lease_state ctx req =
      if ltb ctx.epoch lease_state.descriptor.epoch
      then err (epoch_not_match lease_state.descriptor)
      else if is_migrating lease_state && is_accept_shard req
      then err (service_is_busy "migration")
      else debug_assert checks (ctx.epoch == lease_state.descriptor.epoch)
        >> ok (record (identified ctx) {
          migration_desc = and_then lease_state.migration_state λ m. m.migration_desc;
        })

  unfoldable pub check_request_early : Bool → LeaseState → ExecCtx → Request → Result ExecCtx
  unfolding unforwarded
  check_request_early checks lease_state ctx req =
      if not (is_raft_leader lease_state)
      then err (not_leader info.group_id lease_state.applied_term (leader_descriptor lease_state))
      else if not (is_log_term_matched lease_state)
      then err (group_not_ready info.group_id)
      else if is_some ctx.forward_shard_id
      then ok (identified ctx)
      else unforwarded checks lease_state ctx req

  unfoldable pub check_leader_early : LeaseState → Result (Unit {0})
  check_leader_early lease_state =
      if not (is_ready_for_serving lease_state)
      then err (not_leader info.group_id lease_state.applied_term (leader_descriptor lease_state))
      else ok tt
