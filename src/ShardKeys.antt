-- ===== src/ShardKeys.antt =====
-- src/api/src/shard.rs: which keys belong to a shard. The hash of a key is another crate's.
pub mod Ranges
mod Examples
use engula.Error.{Result}
use engula.Meta.{Bytes, Partition, ShardDesc, hash, range}
use engula.Prelude.{
  Bool, Option, [], division_by_zero, false, if◌then◌else◌, ltb, none, not, ok, overflow, panic,
  some, true, unwrap, ℕ, ◌%◌, ◌&&◌, ◌+◌, ◌==◌, ◌>>=◌, ◌^◌, ◌||◌, ◌∷◌,
}
use engula.Engine.Keys.{to_le_bytes}

-- The order of byte strings.
abbrev pub key_leb : Bytes → Bytes → Bool
key_leb [] ys = true
key_leb (x ∷ xs) [] = false
key_leb (x ∷ xs) (y ∷ ys) = ltb x y || ((x == y) && key_leb xs ys)

abbrev pub key_ltb : Bytes → Bytes → Bool
key_ltb xs ys = not (key_leb ys xs)

abbrev pub is_empty : Bytes → Bool
is_empty [] = true
is_empty (_ ∷ _) = false

abbrev pub in_range : Bytes → Bytes → Bytes → Bool
in_range start end key = key_leb start key && (key_ltb key end || is_empty end)

module _ (crc32 : Bytes → ℕ) where
  -- The remainder panics for no slots.
  unfoldable pub key_slot : Bytes → ℕ → Result ℕ
  key_slot key slots = if slots == 0 then panic division_by_zero else ok (crc32 key % slots)

  unfoldable pub partition_has : Partition → Bytes → Result Bool
  unfolding key_slot
  partition_has (hash h) key = key_slot key h.slots >>= λ slot. ok (h.slot_id == slot)
  partition_has (range r) key = ok (in_range r.start r.end key)

  unfoldable pub belong_to : ShardDesc → Bytes → Result Bool
  unfolding partition_has
  belong_to shard key = unwrap shard.partition >>= λ p. partition_has p key

partition_start : Partition → Bytes
partition_start (hash h) = to_le_bytes 4 h.slot_id
partition_start (range r) = r.start

unfoldable pub start_key : ShardDesc → Result Bytes
unfolding partition_start
start_key shard = unwrap shard.partition >>= λ p. ok (partition_start p)

-- `slot_id + 1` is taken on u32.
add_u32 : Bool → ℕ → ℕ → Result ℕ
add_u32 checks a b =
    if ltb (a + b) (2 ^ 32)
    then ok (a + b)
    else if checks
    then panic overflow
    else ok ((a + b) % 2 ^ 32)

partition_end : Bool → Partition → Result Bytes
unfolding add_u32
partition_end checks (hash h) = add_u32 checks h.slot_id 1 >>= λ next. ok (to_le_bytes 4 next)
partition_end checks (range r) = ok r.end

unfoldable pub end_key : Bool → ShardDesc → Result Bytes
unfolding partition_end
end_key checks shard = unwrap shard.partition >>= partition_end checks

unfoldable pub partition_slot : Partition → Option ℕ
partition_slot (hash h) = some h.slot_id
partition_slot (range _) = none

unfoldable pub shard_slot : ShardDesc → Result (Option ℕ)
unfolding partition_slot
shard_slot shard = unwrap shard.partition >>= λ p. ok (partition_slot p)
