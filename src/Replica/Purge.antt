-- ===== src/Replica/Purge.antt =====
-- The commands of src/server/src/node/replica/eval that read the engine: get, delete, which removes
-- every version of the key that it finds, and prefix_list.
use engula.Engine.{GroupEngineCore}
use engula.Engine.Batch
use engula.Engine.Batch.{BatchOp}
use engula.Engine.Snapshot.{
  at_prefix, value_of, MvccEntry, Snapshot, SnapshotCore, at_key, next_mvcc_entry,
  next_mvcc_iterator, DbItem,
}
use engula.Engine.Snapshot.Reads
use engula.Error.{Result, invalid_argument}
use engula.Prelude.{
  on_option, and_loop, and_then, ◌++◌, Bool, List, Option, [], drop, if◌then◌else◌, length, ltb,
  none, ok, ok_or, out_of_bounds, panic, some, suc, u64_mod, zero, ℕ, ◌*◌, ◌+◌, ◌-◌, ◌>>=◌, ◌>>◌,
  ◌∷◌,
}
use engula.Replica.{ShardDeleteRequest, ShardPrefixListRequest, ExecCtx, ShardGetRequest}
use engula.Replica.Eval.{flat_key_version, migrating_payloads, check_forward}
use engula.Meta.{Bytes}

-- `MvccEntry::version`: the last eight bytes of the key.
from_be_bytes : ℕ → Bytes → ℕ
from_be_bytes acc [] = acc
from_be_bytes acc (b ∷ bs) = from_be_bytes (acc * 256 + b) bs

unfoldable pub entry_version : MvccEntry → Result ℕ
unfolding from_be_bytes
entry_version e =
    if ltb (length e.key) 8
    then panic out_of_bounds
    else ok (u64_mod - 1 - from_be_bytes 0 (drop (length e.key - 8) e.key))

module _ (checks : Bool) (crc32 : Bytes → ℕ) (iterator_from : Bytes → List DbItem)
    (core : GroupEngineCore) where
  unfoldable pub eval_get : ExecCtx → ShardGetRequest → Result (Option Bytes)
  eval_get ctx req = do
    key ← ok_or (invalid_argument "ShardGetRequest::get is None") req.get
    value ← Reads.get checks crc32 iterator_from req.shard_id key core
    check_forward ctx.migration_desc req.shard_id (migrating_payloads key value)
    ok value

  -- The loop over the versions of a key. Each round takes the cached entry or an item, so that their
  -- number is enough fuel; `none` is a loop that has not ended.
  unfoldable pub purge_loop :
      ℕ → ℕ → Bytes → Snapshot → SnapshotCore → List BatchOp → Option (Result (List BatchOp))
  unfolding entry_version
  purge_loop zero shard_id key snap at wb = none
  purge_loop (suc fuel) shard_id key snap at wb =
      let rest =
        λ (next : SnapshotCore) (out : List BatchOp). purge_loop fuel shard_id key snap next out in
      and_loop (next_mvcc_entry checks snap at) λ r. on_option r.0 (some (ok wb)) λ entry.
        and_loop (entry_version entry)
          λ version. and_loop (Batch.delete checks crc32 core shard_id key version wb) (rest r.1)

  unfoldable pub purge_from :
      ℕ → Bytes → Snapshot → Option SnapshotCore → List BatchOp → Option (Result (List BatchOp))
  unfolding purge_loop
  purge_from shard_id key snap none wb = some (ok wb)
  purge_from shard_id key snap (some at) wb =
      purge_loop (suc (suc (length at.db_iter))) shard_id key snap at wb

  unfoldable pub purge_versions : ℕ → Bytes → List BatchOp → Option (Result (List BatchOp))
  unfolding purge_from
  purge_versions shard_id key wb =
      and_loop (Reads.snapshot checks crc32 iterator_from shard_id (at_key key) core)
        λ s. and_loop (next_mvcc_iterator checks s.0 s.1) λ at. purge_from shard_id key s.0 at wb

  -- A key that is deleted while its shard comes in gets a tombstone, so that the one which is pulled
  -- later is not visible.
  unfoldable pub delete_batch : Option ℕ → ℕ → Bytes → Option (Result (List BatchOp))
  unfolding purge_versions
  delete_batch (some _) shard_id key =
      some (Batch.put_tombstone checks crc32 core shard_id key flat_key_version [])
  delete_batch none shard_id key = and_then (purge_versions shard_id key []) λ purged.
      some (purged >>= λ wb. Batch.delete checks crc32 core shard_id key flat_key_version wb)

  unfoldable pub eval_delete : ExecCtx → ShardDeleteRequest → Option (Result (List BatchOp))
  unfolding delete_batch
  eval_delete ctx req =
      and_loop (ok_or (invalid_argument "ShardDeleteRequest::delete is None") req.delete) λ key.
        and_loop (check_forward ctx.migration_desc req.shard_id [])
          λ _. delete_batch ctx.forward_shard_id req.shard_id key

  -- The first version of the key at which the iterator is, if it has a value.
  unfoldable pub listed_value : List Bytes → Option Bytes → List Bytes
  listed_value values none = values
  listed_value values (some value) = values ++ value ∷ []

  unfoldable pub first_value :
      Snapshot → SnapshotCore → List Bytes → Result (SnapshotCore × List Bytes)
  unfolding listed_value
  first_value snap at values = next_mvcc_entry checks snap at >>= λ r.
      on_option r.0 (ok (r.1, values))
        λ entry. value_of checks entry >>= λ value. ok (r.1, listed_value values value)

  -- The loop over the keys of a prefix; its fuel as above.
  unfoldable pub list_loop : ℕ → Snapshot → SnapshotCore → List Bytes → Option (Result (List Bytes))
  unfolding first_value
  list_loop zero snap at values = none
  list_loop (suc fuel) snap at values =
      let rest = λ (next : SnapshotCore) (out : List Bytes). list_loop fuel snap next out in
      and_loop (next_mvcc_iterator checks snap at) λ here.
        on_option here (some (ok values))
          λ key_at. and_loop (first_value snap key_at values) λ r. rest r.0 r.1

  unfoldable pub eval_prefix_list : ShardPrefixListRequest → Option (Result (List Bytes))
  unfolding list_loop
  eval_prefix_list req =
      and_loop (Reads.snapshot checks crc32 iterator_from req.shard_id (at_prefix req.prefix) core)
        λ s. list_loop (suc (suc (length s.1.db_iter))) s.0 s.1 []
