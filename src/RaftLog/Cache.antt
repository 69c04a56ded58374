-- ===== src/RaftLog/Cache.antt =====
-- `EntryCache` of src/server/src/raftgroup/storage.rs.
pub mod Runs
pub mod Lookup
pub mod Appending
pub mod Draining
pub mod Scanning
pub mod Fetching
use engula.Error.{Result}
use engula.Meta.{Bytes}
use engula.Prelude.{
  List, Option, [], assertion, drop, entry_hole, get_elem?, if◌then◌else◌, leb, length, ltb, none,
  ok, out_of_bounds, panic, some, take, unwrap_none, unwrap_or, ℕ, ◌++◌, ◌+◌, ◌-◌, ◌/◌, ◌>>=◌, ◌>>◌,
  ◌∷◌,
}

-- The fields of raft's `Entry` that the storage reads.
pub record LogEntry : Type 0 where
  pub index : ℕ
  pub term : ℕ
  pub bytes : Bytes

pub record EntryCache : Type 0 where
  pub entries : List LogEntry

-- `EntryCache::new`
abbrev pub new : EntryCache
new = record { entries = [] }

abbrev pub front : List LogEntry → Option LogEntry
front [] = none
front (e ∷ _) = some e

-- The last index, `none` of an empty list.
abbrev pub back_index : List LogEntry → Option ℕ
back_index [] = none
back_index (e ∷ es) = some (unwrap_or (back_index es) e.index)

abbrev front_index : Option LogEntry → Option ℕ
front_index none = none
front_index (some e) = some e.index

abbrev pub first_index : EntryCache → Option ℕ
first_index c = front_index (front c.entries)

-- Indexing a deque panics out of bounds.
at_position : Option LogEntry → Result (Option LogEntry)
at_position none = panic out_of_bounds
at_position (some e) = ok (some e)

unfoldable pub entry : ℕ → EntryCache → Result (Option LogEntry)
unfolding at_position
entry index c = elim (first_index c) [
  | none ↦ ok none
  | some first ↦
      if leb first index then at_position (get_elem? c.entries (index - first)) else ok none
]

-- `drain(n..)` and `drain(0..n)`, which panic past the end.
drain_from : ℕ → List LogEntry → Result (List LogEntry)
drain_from n es = if leb n (length es) then ok (take n es) else panic out_of_bounds

drain_to : ℕ → List LogEntry → Result (List LogEntry)
drain_to n es = if leb n (length es) then ok (drop n es) else panic out_of_bounds

-- The cached entries that stay in front of new ones from `first` on.
keep_before : ℕ → Option ℕ → List LogEntry → Result (List LogEntry)
unfolding drain_from
keep_before first none es = ok es
keep_before first (some last) es =
    if leb first last
    then drain_from (length es - (last - first + 1)) es
    else if ltb (last + 1) first
    then panic entry_hole
    else ok es

unfoldable pub append : List LogEntry → EntryCache → Result EntryCache
unfolding keep_before
append [] c = ok c
append (e ∷ es) c = do
  kept ← keep_before e.index (back_index c.entries) c.entries
  ok (record { entries = kept ++ e ∷ es })

unfoldable pub drains_to : ℕ → EntryCache → Result EntryCache
unfolding drain_to
drains_to applied c = elim (first_index c) [
  | none ↦ ok c
  | some low ↦
      if ltb applied low
      then panic unwrap_none
      else (drain_to ((applied - low) / 2) c.entries >>= λ es. ok (record { entries = es }))
]

-- The size of an encoded entry is the message library's.
module _ (encoded_len : LogEntry → ℕ) where
  -- The `take_while`: it counts the size of the entry at which it stops too.
  pub take_sized : ℕ → ℕ → List LogEntry → ℕ × List LogEntry
  take_sized max_size fetched [] = (fetched, [])
  take_sized max_size fetched (e ∷ es) =
      let size = fetched + encoded_len e in
      let rest = take_sized max_size size es in
      if leb size max_size then (rest.0, e ∷ rest.1) else (size, [])

  fetch_range : ℕ → ℕ → ℕ → List LogEntry → List LogEntry → Result (ℕ × List LogEntry)
  unfolding take_sized
  fetch_range start limit max_size es out =
      let got = take_sized max_size 0 (take limit (drop start es)) in
      if leb start (length es) then ok (got.0, out ++ got.1) else panic out_of_bounds

  -- The size that was fetched, and `out` with the entries behind it.
  unfoldable pub fetch_entries_to :
      ℕ → ℕ → ℕ → EntryCache → List LogEntry → Result (ℕ × List LogEntry)
  unfolding fetch_range
  fetch_entries_to begin end max_size c out =
      if leb end begin then ok (0, out) else elim (first_index c) [
        | none ↦ panic assertion
        | some low ↦
            if ltb begin low
            then panic unwrap_none
            else fetch_range (begin - low) (end - begin) max_size c.entries out
      ]
