-- ===== src/RaftLog/Storage/Opening.antt =====
-- `Storage::open` of src/server/src/raftgroup/storage.rs.
use engula.Meta.{EntryId}
use engula.Prelude.{
  Bool, Option, Outcome, [], assert, false, if◌then◌else◌, leb, ltb, missing_entries, none, ok,
  panic, some, unwrap, unwrap_or, ℕ, ◌&&◌, ◌+◌, ◌==◌, ◌>>=◌, ◌>>◌,
}
use engula.RaftLog.Cache.{EntryCache, first_index, new}
use engula.RaftLog.Storage.{RaftEngine, RaftError, Storage}
use engula.ConfigChange.ConfState.{ConfState}

-- The range of the log, from the engine's and the truncated state.
open_range : Option EntryId → ℕ × ℕ → Outcome RaftError (ℕ × ℕ)
open_range none r = ok r
open_range (some truncated) (first_index, last_index) =
    if leb first_index last_index
    then (if truncated.index + 1 == first_index
        then ok (first_index, last_index)
        else panic missing_entries)
    else ok (truncated.index + 1, truncated.index)

-- The applied index that the test setting `force_new_peer_receiving_snapshot` asks for.
abbrev known_applied : Bool → ℕ → ℕ
known_applied force applied = if force && (applied == 0) then 5 else applied

module _ (engine : RaftEngine) (force : Bool) (replica_id applied_index : ℕ) where
  open_cache : ℕ × ℕ → Outcome RaftError EntryCache
  open_cache (first_index, last_index) =
      if ltb applied_index last_index
      then (assert (leb first_index (known_applied force applied_index + 1))
          >> (engine.fetch_entries_to replica_id (known_applied force applied_index + 1)
                (last_index + 1) none []
              >>= λ es. ok (record { entries = es })))
      else ok new

  unfoldable pub open_storage : ConfState → Outcome RaftError Storage
  unfolding open_range open_cache
  open_storage conf_state = do
    hs ← engine.hard_state replica_id
    hard_state ← unwrap hs
    ls ← engine.local_state replica_id
    local_state ← unwrap ls
    logged ←
        open_range local_state.last_truncated
          (unwrap_or (engine.first_index replica_id) 1, unwrap_or (engine.last_index replica_id) 0)
    cache ← open_cache logged
    ok (record {
      replica_id = replica_id;
      first_index = logged.0;
      last_index = logged.1;
      cache = cache;
      local_state = local_state;
      hard_state = hard_state;
      initial_conf_state = some conf_state;
      create_snapshot = false;
      is_creating_snapshot = false;
    })
