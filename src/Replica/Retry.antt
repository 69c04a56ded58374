-- ===== src/Replica/Retry.antt =====
-- src/server/src/node/replica/retry.rs: a request is tried again with the epoch of a newer descriptor
-- that still has its shard. The attempts are a list, of what the replica answers to each; the ids in
-- the context, which each attempt sets, are left out.
use engula.Error.{
  epoch_not_match, forward, group_not_ready, invalid_argument, service_is_busy, shard_not_found,
  Result, Error,
}
use engula.Prelude.{
  Bool, List, Option, [], and_loop, debug_assert, err, false, find, if◌then◌else◌, is_some, none,
  not, ok, ok_or, panic, some, true, unsupported, unwrap, ℕ, ◌==◌, ◌>>=◌, ◌>>◌, ◌∷◌,
}
use engula.Replica.{
  ExecCtx, Request, Response, ShardDeleteRequest, ShardPutRequest, batch_write_request,
  delete_request, get_request, prefix_list_request, put_request, reset,
}
use engula.ShardKeys.{belong_to}
use engula.Meta.{Bytes, ForwardCtx, GroupDesc}

-- The request, where both levels of it are there.
pub record GroupRequest : Type 0 where
  pub group_id : ℕ
  pub epoch : ℕ
  pub request : Option Request

pub record GroupResponse : Type 0 where
  pub response : Response
  pub error : Option Error

module _ (crc32 : Bytes → ℕ) where
  unfoldable pub is_target_shard_exists : GroupDesc → ℕ → Bytes → Result Bool
  is_target_shard_exists desc shard_id key = elim (find (λ s. s.id == shard_id) desc.shards) [
    | none ↦ ok false
    | some s ↦ belong_to crc32 s key
  ]

  deletes_executable : GroupDesc → List ShardDeleteRequest → Result Bool
  unfolding is_target_shard_exists
  deletes_executable desc [] = ok true
  deletes_executable desc (req ∷ reqs) =
      let rest = deletes_executable desc reqs in
      unwrap req.delete >>= λ key.
      is_target_shard_exists desc req.shard_id key >>= λ here. if not here then ok false else rest

  puts_executable : GroupDesc → List ShardPutRequest → Result Bool
  unfolding is_target_shard_exists
  puts_executable desc [] = ok true
  puts_executable desc (req ∷ reqs) =
      let rest = puts_executable desc reqs in
      unwrap req.put >>= λ p.
      is_target_shard_exists desc req.shard_id p.key >>= λ here. if not here then ok false else rest

  unfoldable pub is_executable : GroupDesc → Request → Result Bool
  unfolding is_target_shard_exists deletes_executable puts_executable
  is_executable desc (get_request req) =
      unwrap req.get >>= λ key. is_target_shard_exists desc req.shard_id key
  is_executable desc (put_request req) =
      unwrap req.put >>= λ p. is_target_shard_exists desc req.shard_id p.key
  is_executable desc (delete_request req) =
      unwrap req.delete >>= λ key. is_target_shard_exists desc req.shard_id key
  is_executable desc (prefix_list_request req) = is_target_shard_exists desc req.shard_id req.prefix
  is_executable desc (batch_write_request req) = deletes_executable desc req.deletes >>= λ here.
      if not here then ok false else puts_executable desc req.puts
  is_executable desc _ = ok false

  -- After a descriptor that does not match, the next epoch.
  unfoldable pub retried : Bool → GroupDesc → ExecCtx → Request → Result ExecCtx
  unfolding is_executable
  retried checks desc ctx req = is_executable desc req >>= λ executable.
      if executable
      then debug_assert checks (not (desc.epoch == ctx.epoch))
        >> ok (record ctx { epoch = desc.epoch })
      else err (epoch_not_match desc)

-- `GroupResponse::new` and `GroupResponse::with_error`
abbrev pub fresh_error : Option GroupDesc → Option Error
fresh_error none = none
fresh_error (some desc) = some (epoch_not_match desc)

abbrev pub respond : Option GroupDesc → Response → GroupResponse
respond fresh resp = record { response = resp; error = fresh_error fresh }

unfoldable pub forwarded :
    Option (ForwardCtx → Request → Result Response) → ForwardCtx → Request → Result GroupResponse
forwarded none forward_ctx req = panic unsupported
forwarded (some send) forward_ctx req = send forward_ctx req >>= λ resp. ok (respond none resp)

module _ (crc32 : Bytes → ℕ) (checks : Bool)
    (ctrl : Option (ForwardCtx → Request → Result Response)) (descriptor : GroupDesc) where
  -- The answer to an attempt, or what the next one starts from.
  unfoldable pub after_attempt :
      Result Response
      → ExecCtx
      → Option GroupDesc
      → Request
      → (ExecCtx → Option GroupDesc → Option (Result GroupResponse))
      → Option (Result GroupResponse)
  unfolding retried forwarded
  after_attempt (ok resp) ctx fresh req again = some (ok (respond fresh resp))
  after_attempt (panic p) ctx fresh req again = some (panic p)
  after_attempt (err (forward forward_ctx)) ctx fresh req again =
      some (forwarded ctrl forward_ctx req)
  after_attempt (err (service_is_busy _)) ctx fresh req again = again ctx fresh
  after_attempt (err (group_not_ready _)) ctx fresh req again = again ctx fresh
  after_attempt (err (epoch_not_match desc)) ctx fresh req again =
      and_loop (retried crc32 checks desc ctx req) λ next. again next (some desc)
  after_attempt (err (shard_not_found shard_id)) ctx fresh req again =
      if is_some ctx.forward_shard_id
      then some (err (epoch_not_match descriptor))
      else some (panic unsupported)
  after_attempt (err e) ctx fresh req again = some (err e)

  -- `none` where the attempts end before there is an answer.
  unfoldable pub retry_loop :
      List (ExecCtx → Result Response)
      → ExecCtx
      → Option GroupDesc
      → Request
      → Option (Result GroupResponse)
  unfolding after_attempt
  retry_loop [] ctx fresh req = none
  retry_loop (attempt ∷ attempts) ctx fresh req =
      let again = λ (next : ExecCtx) (desc : Option GroupDesc). retry_loop attempts next desc req in
      after_attempt (attempt (reset ctx)) (reset ctx) fresh req again

  unfoldable pub execute_internal :
      List (ExecCtx → Result Response) → ExecCtx → GroupRequest → Option (Result GroupResponse)
  unfolding retry_loop
  execute_internal attempts ctx request =
      and_loop (ok_or (invalid_argument "GroupRequest::request is None") request.request)
        λ req. retry_loop attempts (record ctx { epoch = request.epoch }) none req
