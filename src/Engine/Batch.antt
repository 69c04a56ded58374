-- ===== src/Engine/Batch.antt =====
-- What `put`, `tombstone` and `delete` of src/server/src/node/engine/group.rs add to a write batch.
use engula.Engine.Keys.{data_value, local_collection_id, mvcc_key, tombstone}
use engula.Error.{Result}
use engula.Meta.{Bytes}
use engula.Prelude.{
  Bool, List, [], debug_assert, if◌then◌else◌, not, ok, true, ℕ, ◌++◌, ◌==◌, ◌>>=◌, ◌>>◌, ◌∷◌,
}
use engula.ShardKeys.{belong_to, shard_slot}
use engula.Engine.{GroupEngineCore, shard_desc}

pub data BatchOp : Type 0 where
  batch_put : Bytes → Bytes → BatchOp
  batch_delete : Bytes → BatchOp

module _ (checks : Bool) (crc32 : Bytes → ℕ) (core : GroupEngineCore) where
  -- The key of a version in a shard that the engine serves, with the checks of a debug build.
  pub version_key : ℕ → Bytes → ℕ → Result Bytes
  version_key shard_id key version = do
    desc ← shard_desc shard_id core
    debug_assert checks (not (desc.collection_id == local_collection_id))
    belongs ← (if checks then belong_to crc32 desc key else ok true)
    debug_assert checks belongs
    slot ← shard_slot desc
    mvcc_key desc.collection_id slot key version

  unfoldable pub put : ℕ → Bytes → Bytes → ℕ → List BatchOp → Result (List BatchOp)
  unfolding version_key
  put shard_id key value version wb = do
    k ← version_key shard_id key version
    ok (wb ++ batch_put k (data_value value) ∷ [])

  unfoldable pub put_tombstone : ℕ → Bytes → ℕ → List BatchOp → Result (List BatchOp)
  unfolding version_key
  put_tombstone shard_id key version wb = do
    k ← version_key shard_id key version
    ok (wb ++ batch_put k tombstone ∷ [])

  unfoldable pub delete : ℕ → Bytes → ℕ → List BatchOp → Result (List BatchOp)
  unfolding version_key
  delete shard_id key version wb = do
    k ← version_key shard_id key version
    ok (wb ++ batch_delete k ∷ [])
