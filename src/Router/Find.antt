-- ===== src/Router/Find.antt =====
-- src/client/src/router.rs, the queries that a client makes of the tables: the shard of a key, the
-- group of a shard, a group and a node's address.
use engula.HashMap
use engula.HashMap.{nat_key}
use Prim.Native.String.{String}
use engula.Prelude.{
  ok_or, Bool, List, Option, Outcome, [], division_by_zero, err, false, if◌then◌else◌, length, not,
  ok, panic, some, unwrap, unwrap_none, ℕ, ◌%◌, ◌&&◌, ◌==◌, ◌>>=◌, ◌^◌, ◌||◌, ◌∷◌,
}
use engula.Router.{ClientError, RouterGroupState, State, find_group_by_shard, not_found}
use engula.ShardKeys.{is_empty, key_leb, key_ltb}
use engula.Meta.{
  CollectionDesc, CollectionPartition, by_hash, Partition, ShardDesc, hash, range, Bytes,
}

-- The test of the closure that looks for the shard of a slot.
unfoldable pub has_slot : ℕ → Partition → Bool
has_slot slot (hash h) = h.slot_id == slot
has_slot slot (range _) = false

unfoldable pub find_slot : ℕ → List ShardDesc → Outcome ClientError ShardDesc
unfolding has_slot
find_slot slot [] = panic unwrap_none
find_slot slot (s ∷ shards) =
    let rest = find_slot slot shards in
    unwrap s.partition >>= λ p. if has_slot slot p then ok s else rest

-- Which ranges the loop over the shards takes for a key.
unfoldable pub takes_range : Bytes → Bytes → Bytes → Bool
takes_range start end key = key_leb start key && (key_ltb end key || is_empty end)

unfoldable pub takes : Option Partition → Bytes → Bool
unfolding takes_range
takes (some (range r)) key = takes_range r.start r.end key
takes _ key = false

unfoldable pub get_group_by_shard : ℕ → State → Outcome ClientError RouterGroupState
get_group_by_shard shard s = ok_or not_found (find_group_by_shard shard s)

unfoldable pub with_group : ShardDesc → State → Outcome ClientError (RouterGroupState × ShardDesc)
unfolding get_group_by_shard
with_group shard s = get_group_by_shard shard.id s >>= λ group. ok (group, shard)

unfoldable pub find_range :
    Bytes → List ShardDesc → State → Outcome ClientError (RouterGroupState × ShardDesc)
unfolding takes with_group
find_range key [] s = err not_found
find_range key (shard ∷ shards) s =
    let rest = find_range key shards s in
    if takes shard.partition key then with_group shard s else rest

unfoldable pub collection_shards : ℕ → State → Outcome ClientError (List ShardDesc)
collection_shards id s = ok_or not_found (HashMap.get id s.co_shards_lookup)

module _ (crc32 : Bytes → ℕ) where
  unfoldable pub find_slot_shard :
      ℕ → Bytes → State → List ShardDesc → Outcome ClientError (RouterGroupState × ShardDesc)
  unfolding find_slot with_group
  find_slot_shard slots key s shards =
      if not (slots == length shards % 2 ^ 32)
      then err not_found
      else find_slot (crc32 key % slots) shards >>= λ shard. with_group shard s

  -- The remainder panics for no slots.
  unfoldable pub find_hash :
      ℕ → ℕ → Bytes → State → Outcome ClientError (RouterGroupState × ShardDesc)
  unfolding find_slot_shard collection_shards
  find_hash id slots key s =
      if slots == 0
      then panic division_by_zero
      else collection_shards id s >>= find_slot_shard slots key s

  unfoldable pub find_in :
      Option CollectionPartition
      → ℕ
      → Bytes
      → State
      → Outcome ClientError (RouterGroupState × ShardDesc)
  unfolding find_hash find_range collection_shards
  find_in (some (by_hash slots)) id key s = find_hash id slots key s
  find_in _ id key s = collection_shards id s >>= λ shards. find_range key shards s

  unfoldable pub find_shard :
      CollectionDesc → Bytes → State → Outcome ClientError (RouterGroupState × ShardDesc)
  unfolding find_in
  find_shard desc key s = find_in desc.partition desc.id key s

unfoldable pub find_group : ℕ → State → Outcome ClientError RouterGroupState
find_group id s = ok_or not_found (HashMap.get id s.group_id_lookup)

unfoldable pub find_node_addr : ℕ → State → Outcome ClientError String
find_node_addr id s = ok_or not_found (HashMap.get id s.node_id_lookup)

unfoldable pub total_nodes : State → ℕ
total_nodes s = length s.node_id_lookup
