-- ===== src/Replica/Eval.antt =====
-- src/server/src/node/replica/eval: what the commands make of a request, a write batch or a change
-- of metadata for the group to agree on, or an answer. What the database's iterator gives from a key
-- on, and the bytes of a batch, are parameters.
use engula.Engine.Batch
use engula.Engine.Batch.{BatchOp}
use engula.Meta.{
  MigrationEvent, Bytes, ShardDesc, MigrationDesc, SyncOp, ShardData, setup, EvalResult,
}
use engula.Engine.{GroupEngineCore}
use engula.Prelude.{
  err, some, Bool, List, Option, [], if◌then◌else◌, is_nil, none, ok, ok_or, panic, unsupported,
  unwrap, ℕ, ◌&&◌, ◌-◌, ◌==◌, ◌>>=◌, ◌>>◌, ◌^◌, ◌∷◌,
}
use engula.Replica.{
  AcceptShardRequest, BatchWriteRequest, ExecCtx, ShardDeleteRequest, ShardPutRequest, ctx_migrates,
}
use engula.Error.{Result, forward, invalid_argument}

abbrev pub flat_key_version : ℕ
flat_key_version = 2 ^ 64 - 2

abbrev pub migrating_key_version : ℕ
migrating_key_version = 0

-- `SyncOp::add_shard` and `SyncOp::migration`
abbrev pub sync_add_shard : ShardDesc → SyncOp
sync_add_shard shard = record {
  add_shard = some (record { shard = some shard });
  purge_replica = none;
  migration = none;
}

abbrev pub sync_migration : MigrationEvent → MigrationDesc → SyncOp
sync_migration event desc = record {
  add_shard = none;
  purge_replica = none;
  migration =
      some (record { event = some event; migration_desc = some desc; last_ingested_key = [] });
}

unfoldable pub eval_add_shard : ShardDesc → EvalResult
eval_add_shard shard = record { batch = none; op = some (sync_add_shard shard) }

unfoldable pub eval_accept_shard : ℕ → ℕ → AcceptShardRequest → EvalResult
eval_accept_shard group_id epoch req = record {
  batch = none;
  op = some (
      sync_migration setup (record {
        shard_desc = req.shard_desc;
        src_group_id = req.src_group_id;
        src_group_epoch = req.src_group_epoch;
        dest_group_id = group_id;
        dest_group_epoch = epoch;
      }));
}

-- A request for the shard that migrates is forwarded.
abbrev pub check_forward : Option MigrationDesc → ℕ → List ShardData → Result (Unit {0})
check_forward none shard_id payloads = ok tt
check_forward (some desc) shard_id payloads = unwrap desc.shard_desc >>= λ shard.
    if shard.id == shard_id
    then err (
        forward
          (record { shard_id = shard.id; dest_group_id = desc.dest_group_id; payloads = payloads }))
    else ok tt

abbrev pub migrating_payloads : Bytes → Option Bytes → List ShardData
migrating_payloads key none = []
migrating_payloads key (some value) =
    record { key = key; value = value; version = migrating_key_version } ∷ []

module _ (encode : List BatchOp → Bytes) where
  abbrev pub batch_result : List BatchOp → EvalResult
  batch_result wb = record { batch = some (encode wb); op = none }

module _ (checks : Bool) (crc32 : Bytes → ℕ) (core : GroupEngineCore) where
  unfoldable pub eval_put : ExecCtx → ShardPutRequest → Result (List BatchOp)
  eval_put ctx req = do
    p ← ok_or (invalid_argument "ShardPutRequest::put is None") req.put
    check_forward ctx.migration_desc req.shard_id []
    Batch.put checks crc32 core req.shard_id p.key p.value flat_key_version []

  unfoldable pub batch_deletes :
      ExecCtx → List ShardDeleteRequest → List BatchOp → Result (List BatchOp)
  batch_deletes ctx [] wb = ok wb
  batch_deletes ctx (req ∷ reqs) wb =
      let rest = λ (next : List BatchOp). batch_deletes ctx reqs next in
      ok_or (invalid_argument "ShardDeleteRequest::delete is None") req.delete >>= λ key.
      if ctx_migrates ctx req.shard_id
      then panic unsupported
      else (Batch.delete checks crc32 core req.shard_id key flat_key_version wb >>= rest)

  unfoldable pub batch_puts : ExecCtx → List ShardPutRequest → List BatchOp → Result (List BatchOp)
  batch_puts ctx [] wb = ok wb
  batch_puts ctx (req ∷ reqs) wb =
      let rest = λ (next : List BatchOp). batch_puts ctx reqs next in
      ok_or (invalid_argument "ShardPutRequest::put is None") req.put >>= λ p.
      if ctx_migrates ctx req.shard_id
      then panic unsupported
      else (Batch.put checks crc32 core req.shard_id p.key p.value flat_key_version wb >>= rest)

  unfoldable pub eval_batch_write : ExecCtx → BatchWriteRequest → Result (Option (List BatchOp))
  unfolding batch_deletes batch_puts
  eval_batch_write ctx req =
      if is_nil req.deletes && is_nil req.puts
      then ok none
      else batch_deletes ctx req.deletes [] >>= λ wb.
          batch_puts ctx req.puts wb >>= λ out. ok (some out)
