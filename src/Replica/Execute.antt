-- ===== src/Replica/Execute.antt =====
-- How a replica executes a request: src/server/src/node/replica/mod.rs, `execute`, `try_execute` and
-- `evaluate_command`. The answers of the raft node and of the provider of replica moves, and the
-- schedule state after them, are parameters.
use engula.Engine.{GroupEngineCore}
use engula.Engine.Batch.{BatchOp}
use engula.Engine.Snapshot.{DbItem}
use engula.Lease.{LeaseState, ReplicaInfo}
use engula.Meta.{
  terminated, Bytes, ChangeReplicas, EvalResult, ReplicaDesc, ReplicaLocalState, ScheduleState,
}
use engula.Prelude.{
  Bool, List, Option, and_loop, and_then, err, false, if◌then◌else◌, none, not, ok, ok_or, some,
  true, ℕ, ◌>>=◌, ◌>>◌,
}
use engula.Replica.{
  ExecCtx, MetaAclGuard, Request, Response, accept_shard_request, accept_shard_response,
  batch_write_request, batch_write_response, change_replicas_request, change_replicas_response,
  check_request_early, create_shard_request, create_shard_response, delete_request, delete_response,
  get_request, get_response, move_replicas_request, move_replicas_response, prefix_list_request,
  prefix_list_response, put_request, put_response, take_acl_guard, transfer_request,
  transfer_response,
}
use engula.Replica.Eval.{
  batch_result, eval_accept_shard, eval_add_shard, eval_batch_write, eval_put,
}
use engula.Replica.Purge.{eval_delete, eval_get, eval_prefix_list}
use engula.Error.{group_not_found, invalid_argument, service_is_busy, Result}

-- What is asked of the raft node, or of the provider of replica moves.
pub data RaftCall : Type 0 where
  propose : EvalResult → RaftCall
  change_config : ChangeReplicas → RaftCall
  transfer_leader : ℕ → RaftCall
  assign : ℕ → List ReplicaDesc → List ReplicaDesc → RaftCall

unfoldable pub is_terminated : ReplicaLocalState → Bool
is_terminated terminated = true
is_terminated _ = false

module _ (checks : Bool) (crc32 : Bytes → ℕ) (encode : List BatchOp → Bytes)
    (iterator_from : Bytes → List DbItem) (core : GroupEngineCore) (info : ReplicaInfo)
    (schedule_state : ScheduleState) where
  -- What a batch asks for, and the answer once it is done.
  abbrev pub proposed : Response → List BatchOp → Option RaftCall × Response
  proposed answer wb = (some (propose (batch_result encode wb)), answer)

  -- The call that a request makes, and its answer if the call succeeds.
  unfoldable pub evaluate : ExecCtx → Request → Option (Result (Option RaftCall × Response))
  evaluate ctx (get_request req) =
      some (
        eval_get checks crc32 iterator_from core ctx req >>= λ value. ok (none, get_response value))
  evaluate ctx (put_request req) =
      some (eval_put checks crc32 core ctx req >>= λ wb. ok (proposed put_response wb))
  evaluate ctx (delete_request req) =
      and_then (eval_delete checks crc32 iterator_from core ctx req)
        λ done. some (done >>= λ wb. ok (proposed delete_response wb))
  evaluate ctx (prefix_list_request req) =
      and_then (eval_prefix_list checks crc32 iterator_from core req)
        λ done. some (done >>= λ values. ok (none, prefix_list_response values))
  evaluate ctx (batch_write_request req) = some (
      eval_batch_write checks crc32 core ctx req >>= λ written. ok (elim written [
        | none ↦ (none, batch_write_response)
        | some wb ↦ proposed batch_write_response wb
      ]))
  evaluate ctx (create_shard_request shard) = some (
      ok_or (invalid_argument "CreateShard::shard") shard >>= λ desc.
      ok (some (propose (eval_add_shard desc)), create_shard_response))
  evaluate ctx (change_replicas_request none) = some (ok (none, change_replicas_response))
  evaluate ctx (change_replicas_request (some changes)) =
      some (ok (some (change_config changes), change_replicas_response))
  evaluate ctx (move_replicas_request req) = some (
      ok (
        some (assign ctx.epoch req.incoming_voters req.outgoing_voters),
        move_replicas_response schedule_state,
      ))
  evaluate ctx (accept_shard_request req) =
      some
        (ok (some (propose (eval_accept_shard info.group_id ctx.epoch req)), accept_shard_response))
  evaluate ctx (transfer_request transferee) =
      some (ok (some (transfer_leader transferee), transfer_response))

  module _ (raft : RaftCall → Result (Unit {0})) where
    abbrev answer_call : Option RaftCall × Response → Result Response
    answer_call (none, response) = ok response
    answer_call (some call, response) = raft call >> ok response

    unfoldable pub evaluate_command : ExecCtx → Request → Option (Result Response)
    unfolding evaluate
    evaluate_command ctx req =
        and_then (evaluate ctx req) λ evaluated. some (evaluated >>= answer_call)

    unfoldable pub execute :
        ReplicaLocalState → LeaseState → ExecCtx → Request → Option (Result Response)
    unfolding evaluate_command is_terminated
    execute local_state lease_state ctx req =
        if is_terminated local_state
        then some (err (group_not_found info.group_id))
        else and_loop (check_request_early info checks lease_state ctx req)
            λ checked. evaluate_command checked req

    -- `try_lock` is whether the guard that a request takes is free.
    unfoldable pub try_execute :
        (MetaAclGuard → Bool)
        → ReplicaLocalState
        → LeaseState
        → ExecCtx
        → Request
        → Option (Result Response)
    unfolding evaluate_command is_terminated
    try_execute try_lock local_state lease_state ctx req =
        if is_terminated local_state
        then some (err (group_not_found info.group_id))
        else if not (try_lock (take_acl_guard req))
        then some (err (service_is_busy "try_take_acl_guard"))
        else and_loop (check_request_early info checks lease_state ctx req)
            λ checked. evaluate_command checked req
