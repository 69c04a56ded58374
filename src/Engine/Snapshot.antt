-- ===== src/Engine/Snapshot.antt =====
-- The reads of src/server/src/node/engine/group.rs: `Snapshot` and its iterators. The database's
-- iterator is the list of what it will give, where `none` stands for an error, after which the code
-- stops to read. The map of a range to the keys that it takes is as in the code.
pub mod Reads
pub mod Versions
pub mod Newest
pub mod Finding
pub mod NewestRead
use engula.Engine.{GroupEngineCore, shard_desc}
use engula.Engine.Keys.{local_collection_id, raw, revert_mvcc_key, to_le_bytes}
use engula.Error.{Result, rocks_db}
use engula.Meta.{Bytes, ShardDesc}
use engula.Prelude.{
  on_option, Bool, List, Option, [], debug_assert, err, false, if◌then◌else◌, is_some, length, ltb,
  none, not, ok, out_of_bounds, panic, some, take, true, unwrap_or, ℕ, ◌&&◌, ◌==◌, ◌>>=◌, ◌>>◌, ◌∷◌,
}
use engula.ShardKeys.{shard_slot, belong_to, start_key, end_key, in_range}

pub data SnapshotMode : Type 0 where
  at_start : Option Bytes → SnapshotMode
  at_key : Bytes → SnapshotMode
  at_prefix : Bytes → SnapshotMode

pub data SnapshotRange : Type 0 where
  target : Bytes → SnapshotRange
  prefix : Bytes → SnapshotRange
  key_range : Bytes → Bytes → SnapshotRange
  hash_range : ℕ → Bytes → SnapshotRange

pub record MvccEntry : Type 0 where
  pub key : Bytes
  pub slot : Option ℕ
  pub user_key : Bytes
  pub value : Bytes

abbrev pub DbItem : Type 0
DbItem = Option (Bytes × Bytes)

pub record SnapshotCore : Type 0 where
  pub db_iter : List DbItem
  pub current_key : Option Bytes
  pub cached_entry : Option MvccEntry

-- What does not change while a snapshot is read.
pub record Snapshot : Type 0 where
  pub collection_id : ℕ
  pub range : Option SnapshotRange
  pub expect_slot : Option ℕ

abbrev pub bytes_eq : Bytes → Bytes → Bool
bytes_eq [] [] = true
bytes_eq (x ∷ xs) (y ∷ ys) = (x == y) && bytes_eq xs ys
bytes_eq _ _ = false

abbrev pub starts_with : Bytes → Bytes → Bool
starts_with key [] = true
starts_with [] (y ∷ ys) = false
starts_with (x ∷ xs) (y ∷ ys) = (x == y) && starts_with xs ys

abbrev pub same_slot : ℕ → Option ℕ → Bool
same_slot slot none = false
same_slot slot (some s) = s == slot

-- `SnapshotRange::is_valid_key`
unfoldable pub is_valid_key : SnapshotRange → Bytes → Option ℕ → Bool
is_valid_key (target k) key slot = bytes_eq k key
is_valid_key (prefix p) key slot = starts_with key p
is_valid_key (key_range start end) key slot = in_range start end key
is_valid_key (hash_range s start) key slot = same_slot s slot

abbrev pub in_snapshot : Option SnapshotRange → MvccEntry → Bool
in_snapshot none e = true
in_snapshot (some r) e = is_valid_key r e.user_key e.slot

abbrev pub is_current_key : Option Bytes → Bytes → Bool
is_current_key none key = false
is_current_key (some k) key = bytes_eq k key

-- The first byte of a value.
value_mark : Bytes → Result ℕ
value_mark [] = panic out_of_bounds
value_mark (b ∷ _) = ok b

-- `MvccEntry::value`, with the debug assertion of a build with checks.
unfoldable pub entry_value : Bool → Bytes → Result (Option Bytes)
entry_value checks [] = panic out_of_bounds
entry_value checks (b ∷ v) =
    if b == 1 then ok none else (debug_assert checks (b == 0) >> ok (some v))

module _ (checks : Bool) where
  -- `MvccEntry::new`
  unfoldable pub new_entry : Bool → Bytes → Bytes → Result MvccEntry
  new_entry with_slot key value = do
    r ← revert_mvcc_key checks key with_slot
    ok (record { key = key; slot = r.1; user_key = r.0; value = value })

  unfoldable pub value_of : MvccEntry → Result (Option Bytes)
  unfolding entry_value
  value_of e = entry_value checks e.value

  -- An item of the collection becomes the cached entry, another one ends the iteration.
  unfoldable pub parse_item : Snapshot → DbItem → Result (Option MvccEntry)
  parse_item snap none = err rocks_db
  parse_item snap (some (key, value)) =
      if ltb (length key) 8
      then panic out_of_bounds
      else if bytes_eq (take 8 key) (to_le_bytes 8 snap.collection_id)
      then (new_entry (is_some snap.expect_slot) key value >>= λ e. ok (some e))
      else ok none

  -- What the loop of `next_mvcc_iterator` does at its cached entry.
  pub data Visit : Type 0 where
    consumed found skipped : Visit

  abbrev pub on_visit : {A : Type 0} → Visit → A → A → A → A
  on_visit consumed x y z = x
  on_visit found x y z = y
  on_visit skipped x y z = z

  abbrev pub visit : Snapshot → Option MvccEntry → Option Bytes → Visit
  visit snap none current = skipped
  visit snap (some e) current =
      if not (in_snapshot snap.range e)
      then consumed
      else if is_current_key current e.user_key
      then skipped
      else found

  abbrev pub found_at : List DbItem → Option MvccEntry → Option Bytes → SnapshotCore
  found_at items none current = record {
    db_iter = items;
    current_key = current;
    cached_entry = none;
  }
  found_at items (some e) current = record {
    db_iter = items;
    current_key = some e.user_key;
    cached_entry = some e;
  }

  unfoldable pub next_key :
      Snapshot → List DbItem → Option MvccEntry → Option Bytes → Result (Option SnapshotCore)
  unfolding parse_item
  next_key snap [] cached current =
      on_visit (visit snap cached current) (ok none) (ok (some (found_at [] cached current)))
        (ok none)
  next_key snap (item ∷ items) cached current =
      let rest = λ (e : Option MvccEntry). next_key snap items e current in
      on_visit (visit snap cached current) (ok none)
        (ok (some (found_at (item ∷ items) cached current)))
        (parse_item snap item >>= λ e. on_option e (ok none) λ x. rest (some x))

  -- `next_mvcc_iterator`: the state at the next key of the range, or `none` at its end.
  unfoldable pub next_mvcc_iterator : Snapshot → SnapshotCore → Result (Option SnapshotCore)
  unfolding next_key
  next_mvcc_iterator snap core = next_key snap core.db_iter core.cached_entry core.current_key

  unfoldable pub take_entry :
      List DbItem → MvccEntry → Option Bytes → Option MvccEntry × SnapshotCore
  take_entry items e current =
      if is_current_key current e.user_key
      then (some e, record { db_iter = items; current_key = current; cached_entry = none })
      else (none, record { db_iter = items; current_key = current; cached_entry = some e })

  -- `next_mvcc_entry`: the next version of the current key. Where no entry is cached, one more is
  -- read, which then is cached or handed out, so that the loop takes one more round at most.
  unfoldable pub next_mvcc_entry :
      Snapshot → SnapshotCore → Result (Option MvccEntry × SnapshotCore)
  unfolding take_entry parse_item
  next_mvcc_entry snap core = elim core.cached_entry [
    | some e ↦ ok (take_entry core.db_iter e core.current_key)
    | none ↦ elim core.db_iter [
      | [] ↦ ok (none, core)
      | item ∷ items ↦
          (parse_item snap item >>= λ e.
          on_option e (ok (none, record core { db_iter = items }))
            λ x. ok (take_entry items x core.current_key))
    ]
  ]
