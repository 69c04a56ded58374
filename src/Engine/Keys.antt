-- ===== src/Engine/Keys.antt =====
-- `mod keys` of src/server/src/node/engine/group.rs: where the versions of a key are in the
-- database. A byte is a number below 256. The loops read a key group by group: their fuel is a
-- number that is at least the number of groups, which its length is.
pub mod Groups
pub mod RoundTrip
pub mod Lex
pub mod Order
use engula.Meta.{Bytes}
use engula.Prelude.{
  Bool, Option, [], assertion, debug_assert, drop, false, get_elem?, if◌then◌else◌, leb, length,
  ltb, min, none, not, ok, out_of_bounds, overflow, panic, some, suc, take, true, u64_mod,
  unwrap_or, zero, ℕ, ◌%◌, ◌&&◌, ◌*◌, ◌++◌, ◌+◌, ◌-◌, ◌/◌, ◌==◌, ◌>>=◌, ◌>>◌, ◌∷◌,
}
use engula.Error.{Result}

-- `to_le_bytes` and `from_le_bytes`, of `n` bytes.
abbrev pub to_le_bytes : ℕ → ℕ → Bytes
to_le_bytes zero x = []
to_le_bytes (suc n) x = (x % 256) ∷ to_le_bytes n (x / 256)

abbrev pub from_le_bytes : Bytes → ℕ
from_le_bytes [] = 0
from_le_bytes (b ∷ bs) = b + 256 * from_le_bytes bs

-- `to_be_bytes`
abbrev pub to_be_bytes : ℕ → ℕ → Bytes
to_be_bytes zero x = []
to_be_bytes (suc n) x = to_be_bytes n (x / 256) ++ (x % 256) ∷ []

-- The buffer of `n` zeros after the bytes are read into it.
abbrev pub read_into : ℕ → Bytes → Bytes
read_into zero bs = []
read_into (suc n) [] = 0 ∷ read_into n []
read_into (suc n) (b ∷ bs) = b ∷ read_into n bs

abbrev pub is_empty : Bytes → Bool
is_empty [] = true
is_empty (_ ∷ _) = false

-- What a group of `size` bytes is marked with, if `rest` comes after it: `b'0' + size`.
abbrev pub mark : ℕ → Bytes → ℕ
mark size rest = 48 + (if (size == 8) && not (is_empty rest) then 9 else size)

-- The loop of `mvcc_key`.
pub encode_groups : ℕ → Bytes → Bytes
encode_groups zero key = []
encode_groups (suc fuel) key =
    let rest = encode_groups fuel (drop 8 key) in
    if is_empty key
    then []
    else read_into 8 (take 8 key) ++ mark (length (take 8 key)) (drop 8 key) ∷ rest

pub slot_bytes : Option ℕ → Bytes
slot_bytes none = []
slot_bytes (some slot) = to_le_bytes 4 slot

-- An empty key fails the assertion; without it the buffer's length wraps to one that cannot be
-- allocated.
unfoldable pub mvcc_key : ℕ → Option ℕ → Bytes → ℕ → Result Bytes
unfolding encode_groups slot_bytes
mvcc_key collection_id slot key version =
    if is_empty key
    then panic assertion
    else ok (
        to_le_bytes 8 collection_id
        ++ ((slot_bytes slot ++ encode_groups (length key) key)
            ++ to_be_bytes 8 (u64_mod - 1 - version)))

unfoldable pub raw : ℕ → Option ℕ → Bytes → Result Bytes
unfolding slot_bytes
raw collection_id slot key =
    if is_empty key
    then ok (to_le_bytes 8 collection_id ++ slot_bytes slot)
    else mvcc_key collection_id slot key (u64_mod - 1)

-- `min(group[8] - b'0', 8)` on u8: below `b'0'` it panics or wraps to more than 8.
pub num_element : Bool → ℕ → Result ℕ
num_element checks m =
    if leb 48 m then ok (min (m - 48) 8) else if checks then panic overflow else ok 8

-- The loop of `revert_mvcc_key`.
pub decode_groups : Bool → ℕ → Bytes → Result Bytes
unfolding num_element
decode_groups checks zero bs = ok []
decode_groups checks (suc fuel) bs =
    let rest = decode_groups checks fuel (drop 9 bs) in
    let group = read_into 9 (take 9 bs) in
    if is_empty bs
    then ok []
    else (num_element checks (unwrap_or (get_elem? group 8) 0) >>= λ n.
        rest >>= λ r. ok (take n group ++ r))

-- The slot in front, if there is one, and what is behind it. Slicing panics out of bounds.
split_slot : Bool → Bool → Bytes → Result (Option ℕ × Bytes)
split_slot checks false bs = ok (none, bs)
split_slot checks true bs =
    debug_assert checks (leb 4 (length bs))
    >> (if leb 4 (length bs)
        then ok (some (from_le_bytes (take 4 bs)), drop 4 bs)
        else panic out_of_bounds)

revert_user_key : Bool → Option ℕ × Bytes → Result (Bytes × Option ℕ)
unfolding decode_groups
revert_user_key checks (slot, bs) = do
  debug_assert checks (length bs % 9 == 0)
  key ← decode_groups checks (length bs) bs
  ok (key, slot)

-- `key[8..len - 8]`, which panics out of bounds also where the assertion is off.
user_part : Bytes → Result Bytes
user_part key =
    if leb 16 (length key) then ok (take (length key - 16) (drop 8 key)) else panic out_of_bounds

unfoldable pub revert_mvcc_key : Bool → Bytes → Bool → Result (Bytes × Option ℕ)
unfolding user_part split_slot revert_user_key
revert_mvcc_key checks key with_slot =
    debug_assert checks (ltb 16 (length key))
    >> (user_part key >>= λ part. split_slot checks with_slot part >>= revert_user_key checks)

-- The keys of the states of a group, in the collection that no user has.
abbrev pub local_collection_id : ℕ
local_collection_id = 0

abbrev pub apply_state : Bytes
apply_state =
    to_le_bytes 8 local_collection_id ++ 65 ∷ 80 ∷ 80 ∷ 76 ∷ 89 ∷ 95 ∷ 83 ∷ 84 ∷ 65 ∷ 84 ∷ 69 ∷ []

abbrev pub descriptor : Bytes
descriptor =
    to_le_bytes 8 local_collection_id ++ 68 ∷ 69 ∷ 83 ∷ 67 ∷ 82 ∷ 73 ∷ 80 ∷ 84 ∷ 79 ∷ 82 ∷ []

abbrev pub migrate_state : Bytes
migrate_state =
    to_le_bytes 8 local_collection_id
    ++ 77 ∷ 73 ∷ 71 ∷ 82 ∷ 65 ∷ 84 ∷ 69 ∷ 95 ∷ 83 ∷ 84 ∷ 65 ∷ 84 ∷ 69 ∷ []

-- A value is marked in front: data, or a tombstone.
abbrev pub tombstone : Bytes
tombstone = 1 ∷ []

abbrev pub data_value : Bytes → Bytes
data_value v = 0 ∷ v
