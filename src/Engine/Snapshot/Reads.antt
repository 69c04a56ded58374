-- ===== src/Engine/Snapshot/Reads.antt =====
-- `GroupEngine::snapshot` and `GroupEngine::get` of src/server/src/node/engine/group.rs. What the
-- database's iterator gives from a key on is a parameter.
use engula.Engine.{GroupEngineCore, shard_desc}
use engula.Engine.Keys.{local_collection_id, raw}
use engula.Engine.Snapshot.{
  DbItem, MvccEntry, Snapshot, SnapshotCore, SnapshotMode, SnapshotRange, at_key, at_prefix,
  at_start, hash_range, key_range, next_mvcc_entry, next_mvcc_iterator, prefix, target, value_of,
}
use engula.Error.{Result}
use engula.Meta.{Bytes, ShardDesc}
use engula.Prelude.{
  Bool, List, Option, [], debug_assert, if◌then◌else◌, none, not, ok, some, true, unwrap_or, ℕ,
  ◌==◌, ◌>>=◌, ◌>>◌,
}
use engula.ShardKeys.{shard_slot, belong_to, start_key, end_key}

-- `Snapshot::new`
unfoldable pub snapshot_range :
    SnapshotMode → Option ℕ → Result Bytes → Result Bytes → Result SnapshotRange
snapshot_range (at_key key) slot start end = ok (target key)
snapshot_range (at_prefix key) slot start end = ok (prefix key)
snapshot_range (at_start start_key) (some slot) start end =
    ok (hash_range slot (unwrap_or start_key []))
snapshot_range (at_start none) none start end = start >>= λ s. end >>= λ e. ok (key_range s e)
snapshot_range (at_start (some key)) none start end = end >>= λ e. ok (key_range key e)

module _ (checks : Bool) where
  unfoldable pub newest_of : Option MvccEntry → Result (Option Bytes)
  newest_of none = ok none
  newest_of (some e) = value_of checks e

  unfoldable pub read_one : Snapshot → Option SnapshotCore → Result (Option Bytes)
  unfolding newest_of
  read_one snap none = ok none
  read_one snap (some core) = next_mvcc_entry checks snap core >>= λ r. newest_of r.0

module _ (checks : Bool) (crc32 : Bytes → ℕ) where
  -- The debug assertion that the key of a mode belongs to the shard.
  unfoldable pub assert_belongs : ShardDesc → Bytes → Result (Unit {0})
  assert_belongs desc key =
      (if checks then belong_to crc32 desc key else ok true) >>= debug_assert checks

  unfoldable pub keyed_start : ShardDesc → Bytes → Result Bytes
  unfolding assert_belongs
  keyed_start desc key = do
    assert_belongs desc key
    slot ← shard_slot desc
    raw desc.collection_id slot key

  -- The key from which the database is read.
  unfoldable pub seek_key : ShardDesc → SnapshotMode → Result Bytes
  unfolding keyed_start
  seek_key desc (at_start (some key)) = keyed_start desc key
  seek_key desc (at_start none) = start_key desc >>= raw desc.collection_id none
  seek_key desc (at_key key) = keyed_start desc key
  seek_key desc (at_prefix key) = keyed_start desc key

module _ (checks : Bool) (crc32 : Bytes → ℕ) (iterator_from : Bytes → List DbItem) where
  unfoldable pub new_snapshot : ShardDesc → SnapshotMode → Bytes → Result (Snapshot × SnapshotCore)
  unfolding snapshot_range
  new_snapshot desc mode seek = do
    slot ← shard_slot desc
    taken ← snapshot_range mode slot (start_key desc) (end_key checks desc)
    ok (
      record { collection_id = desc.collection_id; range = some taken; expect_slot = slot },
      record { db_iter = iterator_from seek; current_key = none; cached_entry = none },
    )

  -- `GroupEngine::snapshot`
  unfoldable pub snapshot : ℕ → SnapshotMode → GroupEngineCore → Result (Snapshot × SnapshotCore)
  unfolding new_snapshot
  snapshot shard_id mode core = do
    desc ← shard_desc shard_id core
    debug_assert checks (not (desc.collection_id == local_collection_id))
    seek ← seek_key checks crc32 desc mode
    new_snapshot desc mode seek

  -- `GroupEngine::get`
  unfoldable pub get : ℕ → Bytes → GroupEngineCore → Result (Option Bytes)
  get shard_id key core = do
    s ← snapshot shard_id (at_key key) core
    at ← next_mvcc_iterator checks s.0 s.1
    read_one checks s.0 at
