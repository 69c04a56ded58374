-- ===== src/RaftLog/Storage/Reads.antt =====
-- `Storage` of src/server/src/raftgroup/storage.rs: what raft reads, from the cache or the engine.
use engula.Error.{Result}
use engula.Meta.{EntryId}
use engula.Prelude.{
  Bool, List, Option, Outcome, [], assertion, err, false, if◌then◌else◌, leb, length, ltb, max, min,
  none, ok, panic, some, true, u64_mod, unwrap_err, unwrap_none, unwrap_or, ℕ, ◌&&◌, ◌+◌, ◌-◌, ◌==◌,
  ◌>>=◌, ◌>>◌, ◌∷◌,
}
use engula.RaftLog.Storage.{
  RaftEngine, RaftError, Storage, check_range, compacted, other, snapshot_temporarily_unavailable,
  truncated_index, truncated_term,
}
use engula.RaftLog.Cache.{EntryCache, LogEntry, entry, fetch_entries_to, first_index}

-- `map(|fi| fi <= idx).unwrap_or_default()`
abbrev pub starts_by : ℕ → Option ℕ → Bool
starts_by idx none = false
starts_by idx (some fi) = leb fi idx

-- `Result::unwrap`, also in another error type.
abbrev pub unwrap_result : {A : Type 0} → Outcome RaftError A → Result A
unwrap_result (ok a) = ok a
unwrap_result (err e) = panic unwrap_err
unwrap_result (panic p) = panic p

-- A call of the cache, which has no error value.
abbrev pub of_cache : {A : Type 0} → Result A → Outcome RaftError A
of_cache (ok a) = ok a
of_cache (err e) = err other
of_cache (panic p) = panic p

abbrev pub entry_term : Option LogEntry → Outcome RaftError ℕ
entry_term none = err compacted
entry_term (some e) = ok e.term

abbrev pub cached_term : Option LogEntry → Outcome RaftError ℕ
cached_term none = panic unwrap_none
cached_term (some e) = ok e.term

-- `other_store_error`
abbrev pub store_error : {A : Type 0} → Outcome RaftError A → Outcome RaftError A
store_error (ok a) = ok a
store_error (err e) = err other
store_error (panic p) = panic p

abbrev pub data_len : List LogEntry → ℕ
data_len [] = 0
data_len (e ∷ es) = length e.bytes + data_len es

module _ (engine : RaftEngine) where
  -- The term of an entry, from the cache where that reaches down to it.
  unfoldable pub find_term : ℕ → ℕ → EntryCache → Outcome RaftError ℕ
  find_term replica_id idx c =
      if starts_by idx (first_index c)
      then (of_cache (entry idx c) >>= cached_term)
      else (store_error (engine.get_entry replica_id idx) >>= entry_term)

  unfoldable pub term : ℕ → Storage → Outcome RaftError ℕ
  unfolding find_term
  term idx s =
      if idx == truncated_index s
      then ok (truncated_term s)
      else (check_range idx (idx + 1) s >> find_term s.replica_id idx s.cache)

  module _ (encoded_len : LogEntry → ℕ) where
    -- What `entries` reads from the engine: the entries below the cache.
    entries_below_cache : ℕ → ℕ → ℕ → ℕ → Storage → Outcome RaftError (List LogEntry)
    entries_below_cache low high max_size cache_low s =
        if ltb low cache_low
        then store_error
            (engine.fetch_entries_to s.replica_id low (min cache_low high) (some max_size) [])
        else ok []

    -- The entries of the cache behind the ones that the engine had, if it had them all.
    entries_of_cache : ℕ → ℕ → ℕ → ℕ → Storage → List LogEntry → Outcome RaftError (List LogEntry)
    entries_of_cache low high max_size cache_low s found =
        if ltb low cache_low && ltb (length found) (min cache_low high - low)
        then ok found
        else if ltb cache_low high
        then (of_cache (
              fetch_entries_to encoded_len (max low cache_low) high (max_size - data_len found)
                s.cache found)
            >>= λ r. ok (r.1))
        else ok found

    unfoldable pub entries : ℕ → ℕ → Option ℕ → Storage → Outcome RaftError (List LogEntry)
    unfolding entries_below_cache entries_of_cache
    entries low high max_size s = do
      check_range low high s
      let most = unwrap_or max_size (u64_mod - 1)
      let cache_low = unwrap_or (first_index s.cache) (u64_mod - 1)
      if low == high then ok [] else do
        found ← entries_below_cache low high most cache_low s
        entries_of_cache low high most cache_low s found

module _ {Snap : Type 0} (latest_snap : ℕ → Option (Option EntryId × Snap)) where
  -- The snapshot of the manager, where it reaches the requested index.
  usable_snap : ℕ → Option (Option EntryId × Snap) → Outcome RaftError (Option Snap)
  usable_snap request none = ok none
  usable_snap request (some (none, snap)) = panic unwrap_none
  usable_snap request (some (some apply_state, snap)) =
      ok (if leb request apply_state.index then some snap else none)

  request_snap : Storage → Option Snap → Outcome RaftError Snap × Storage
  request_snap s (some snap) = (ok snap, s)
  request_snap s none = if s.create_snapshot then (panic assertion, s) else (
    err snapshot_temporarily_unavailable,
    record s { create_snapshot = true; is_creating_snapshot = true },
  )

  snapshot_of : Storage → Outcome RaftError (Option Snap) → Outcome RaftError Snap × Storage
  unfolding request_snap
  snapshot_of s (ok found) = request_snap s found
  snapshot_of s (err e) = (err e, s)
  snapshot_of s (panic p) = (panic p, s)

  -- `Storage::snapshot`, which sets two marks also where it fails.
  unfoldable pub snapshot : ℕ → Storage → Outcome RaftError Snap × Storage
  unfolding usable_snap snapshot_of
  snapshot request s =
      if s.is_creating_snapshot
      then (err snapshot_temporarily_unavailable, s)
      else snapshot_of s (usable_snap request (latest_snap s.replica_id))
