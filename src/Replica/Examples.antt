-- ===== src/Replica/Examples.antt =====
-- A replica's requests on concrete states.
use engula.Engine.{shard_desc, GroupEngineCore}
use engula.Engine.Snapshot.Reads
use engula.Engine.Snapshot.{next_mvcc_iterator}
use engula.Error.{epoch_not_match, Result, forward}
use engula.Lease.{LeaseState, ReplicaInfo}
use engula.Engine.Snapshot.Reads.{read_one, seek_key}
use engula.Prelude.{Option, [], err, if◌then◌else◌, none, ok, refl, some, true, ◌==◌, ◌∷◌, ◌≡◌}
use engula.Replica.{
  ExecCtx, PutRequest, Request, Response, check_request_early, delete_request, get_request,
  identified, put_request, put_response, with_epoch,
}
use engula.Replica.Admission.{evaluate-forward, forward_to}
use engula.Replica.Execute.{evaluate}
use engula.Replica.Retry.{GroupRequest, GroupResponse}
use engula.ShardKeys.{belong_to, partition_has, shard_slot}
use engula.Meta.{
  leader, GroupDesc, MigrationDesc, MigrationState, ReplicaState, ScheduleState, ShardDesc,
  migrating, range, ForwardCtx,
}

abbrev moving_shard : ShardDesc
moving_shard = record {
  id = 4;
  collection_id = 7;
  partition = some (range (record { start = []; end = [] }));
}

abbrev source_group : GroupDesc
source_group = record { id = 1; epoch = 2; shards = moving_shard ∷ []; replicas = [] }

abbrev source_core : GroupEngineCore
source_core = record {
  group_desc = source_group;
  shard_descs = (4, moving_shard) ∷ [];
  migration_state = none;
}

abbrev moving : MigrationDesc
moving = record {
  shard_desc = some moving_shard;
  src_group_id = 1;
  src_group_epoch = 2;
  dest_group_id = 9;
  dest_group_epoch = 3;
}

abbrev moving_state : MigrationState
moving_state = record {
  migration_desc = some moving;
  last_migrated_key = [];
  step = some migrating;
}

abbrev leading : ReplicaState
leading = record {
  replica_id = 5;
  group_id = 1;
  term = 6;
  voted_for = 5;
  role = some leader;
  node_id = 1;
}

abbrev no_schedule : ScheduleState
no_schedule = record { group_id = 1; epoch = 2; incoming_replicas = []; outgoing_replicas = [] }

abbrev leading_lease : LeaseState
leading_lease = record {
  leader_id = 5;
  applied_term = 6;
  replica_state = leading;
  descriptor = source_group;
  migration_state = some moving_state;
  schedule_state = no_schedule;
  leader_subscribers = [];
}

abbrev leading_info : ReplicaInfo
leading_info = record { replica_id = 5; group_id = 1; node_id = 1 }

abbrev checked_ctx : ExecCtx
checked_ctx = record (identified leading_info (with_epoch 2)) { migration_desc = some moving }

abbrev put_nine : PutRequest
put_nine = record { key = 9 ∷ []; value = 1 ∷ [] }

abbrev nine_request : Request
nine_request = put_request (record { shard_id = 4; put = some put_nine })

let_through :
    check_request_early leading_info true leading_lease (with_epoch 2) nine_request ≡ ok checked_ctx
unfolding check_request_early
let_through = refl

nothing_read : Reads.get true (λ _. 0) (λ _. []) 4 (9 ∷ []) source_core ≡ ok none
unfolding Reads.get Reads.snapshot Reads.new_snapshot shard_desc belong_to partition_has shard_slot
    seek_key next_mvcc_iterator read_one engula.Engine.Keys.raw engula.Engine.Keys.mvcc_key
nothing_read = refl

evaluate-forward_example :
    (evaluate true
        (λ _. 0)
        (λ _. [])
        (λ _. [])
        source_core
        leading_info
        no_schedule
        checked_ctx
        nine_request
      ≡ some (err (forward (forward_to 4 9 []))))
    × (evaluate true
          (λ _. 0)
          (λ _. [])
          (λ _. [])
          source_core
          leading_info
          no_schedule
          checked_ctx
          (delete_request (record { shard_id = 4; delete = some (9 ∷ []) }))
        ≡ some (err (forward (forward_to 4 9 []))))
    × (evaluate true
          (λ _. 0)
          (λ _. [])
          (λ _. [])
          source_core
          leading_info
          no_schedule
          checked_ctx
          (get_request (record { shard_id = 4; get = some (9 ∷ []) }))
        ≡ some (err (forward (forward_to 4 9 []))))
evaluate-forward_example =
    evaluate-forward true (λ _. 0) (λ _. []) (λ _. []) source_core leading_info no_schedule
      leading_lease (with_epoch 2) checked_ctx moving_state moving moving_shard put_nine
      nine_request none refl refl refl refl let_through nothing_read

-- The group has epoch 2, the request comes with epoch 1.
abbrev attempt : ExecCtx → Result Response
attempt ctx = if ctx.epoch == 2 then ok put_response else err (epoch_not_match source_group)

abbrev old_request : GroupRequest
old_request = record { group_id = 1; epoch = 1; request = some nine_request }

abbrev no_ctrl : Option (ForwardCtx → Request → Result Response)
no_ctrl = none

abbrev newer_answer : GroupResponse
newer_answer = record { response = put_response; error = some (epoch_not_match source_group) }
