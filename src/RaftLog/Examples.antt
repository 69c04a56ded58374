-- ===== src/RaftLog/Examples.antt =====
-- The raft log on concrete entries.
use engula.RaftLog.Cache.{EntryCache, LogEntry, append, entry, fetch_entries_to}
use engula.RaftLog.Cache.Appending.{IsContiguous, append-entries_below, append_lem}
use engula.RaftLog.Cache.Draining.{Drained, drains_to_lem}
use engula.RaftLog.Cache.Fetching.{Fetched, fetch_entries_to_lem}
use engula.RaftLog.Cache.Lookup.{entry_lem}
use engula.RaftLog.Cache.Runs.{IsRun, entry_at}
use engula.RaftLog.Storage.{
  HardState, add_entries, clean, hard_state_key, local, put_message, LogCommand, RaftEngine,
  Storage, hard, local_state_key, write,
}
use engula.RaftLog.Storage.Compaction.{compact_to, compact_to_lem, last_put}
use engula.RaftLog.Storage.Reads.{term}
use engula.RaftLog.Storage.Terms.{StandsFor, term_lem}
use engula.RaftLog.Storage.Writing.{replaced, write-entries, written_commands}
use engula.Meta.{ReplicaDesc, learner, voter}
use engula.RaftLog.Bootstrap.{initial_index_of, initial_batch, initial_batch_lem}
use engula.Prelude.{
  is_nil, length, drop, false, max, min, none, take, true, unwrap_or, ◌++◌, ◌+◌, ◌-◌, ◌<◌, List, [],
  arith, entry_hole, if◌then◌else◌, ltb, ok, panic, refl, some, ℕ, ◌∷◌, ◌≡◌,
}

abbrev item : ℕ → ℕ → LogEntry
item i t = record { index = i; term = t; bytes = [] }

abbrev rest_items : List LogEntry
rest_items = item 6 1 ∷ item 7 2 ∷ item 8 2 ∷ item 9 2 ∷ []

abbrev five_items : EntryCache
five_items = record { entries = item 5 1 ∷ rest_items }

five_items-IsRun : IsRun 5 five_items.entries
five_items-IsRun = (refl, (refl, (refl, (refl, (refl, tt)))))

-- A new leader's entries from index 8 on.
abbrev new_items : List LogEntry
new_items = item 9 3 ∷ []

entry_example : entry 7 five_items ≡ ok (some (item 7 2))
entry_example = entry_lem 5 (item 5 1) rest_items five_items-IsRun 7

append_example :
    (c' : EntryCache) × (append (item 8 3 ∷ new_items) five_items ≡ ok c')
    × IsContiguous c'
    × ((k : ℕ)
        → entry_at k c'.entries
          ≡ (if ltb k 8 then entry_at k five_items.entries else entry_at k (item 8 3 ∷ new_items)))
append_example =
    append_lem five_items (item 8 3) new_items (5, five_items-IsRun) (refl, (refl, tt)) refl

append-entries_below_example : append (item 11 3 ∷ []) five_items ≡ panic entry_hole
append-entries_below_example = append-entries_below five_items (item 11 3) [] (5, five_items-IsRun)

drains_to_example : Drained 8 five_items
drains_to_example = drains_to_lem 8 five_items (5, five_items-IsRun, ground arith, ground arith)

fetch_entries_to_example :
    (size : ℕ) × (got : List LogEntry) × (fetch_entries_to
        (λ e. e.index)
        6
        9
        20
        five_items
        (item 4 1 ∷ [])
      ≡ ok (size, item 4 1 ∷ got))
    × Fetched (λ e. e.index) 6 9 20 10 five_items.entries size got
fetch_entries_to_example =
    fetch_entries_to_lem (λ e. e.index) 6 9 20 five_items (item 4 1 ∷ []) (ground arith)
      (5, five_items-IsRun, ground arith, ground arith)

-- A storage that caches the entries from 7 on; the engine has them all.
abbrev log_engine : RaftEngine
log_engine = record {
  first_index = λ _. some 5;
  last_index = λ _. some 9;
  hard_state = λ _. ok none;
  local_state = λ _. ok none;
  get_entry = λ _ idx. ok (entry_at idx five_items.entries);
  fetch_entries_to =
      λ _ begin end _ out. ok (out ++ take (end - begin) (drop (begin - 5) five_items.entries));
}

abbrev three_cached : EntryCache
three_cached = record { entries = item 7 2 ∷ item 8 2 ∷ item 9 2 ∷ [] }

abbrev storage : Storage
storage = record {
  replica_id = 3;
  first_index = 5;
  last_index = 9;
  cache = three_cached;
  local_state = record { replica_id = 3; last_truncated = some (record { index = 4; term = 1 }) };
  hard_state = record { term = 2; vote = 3; commit = 6 };
  initial_conf_state = none;
  create_snapshot = false;
  is_creating_snapshot = false;
}

same_cached :
    (n : ℕ)
    → entry_at (max 7 5 + n) three_cached.entries ≡ entry_at (max 7 5 + n) five_items.entries
same_cached n = ground arith

storage-StandsFor : StandsFor storage five_items.entries 7
storage-StandsFor = (five_items-IsRun, refl, refl, (refl, (refl, (refl, tt))), refl, same_cached)

storage-stored :
    (n : ℕ) → 5 + n < 7 → log_engine.get_entry 3 (5 + n) ≡ ok (entry_at (5 + n) five_items.entries)
storage-stored n h = refl

term_example : term log_engine 6 storage ≡ ok 1
term_example = term_lem log_engine storage five_items.entries 7 storage-StandsFor storage-stored 6

write_example :
    (s' : Storage) × (batch' : List LogCommand) × (write
        (record { hard_state = none; snapshot = none; entries = item 8 3 ∷ new_items })
        (storage, [])
      ≡ ok (s', batch'))
    × StandsFor s' (replaced five_items.entries (item 8 3) new_items) (min 7 8)
    × (s'.hard_state ≡ unwrap_or none storage.hard_state)
    × (batch' ≡ [] ++ written_commands none (item 8 3 ∷ new_items))
write_example =
    write-entries storage five_items.entries 7 (item 8 3) new_items storage-StandsFor
      (refl, (refl, tt)) (ground arith) (ground arith) none []

compact_to_example :
    (s' : Storage) × (batch : List LogCommand) × (compact_to log_engine true 8 storage
      ≡ ok (s', batch))
    × StandsFor s' (item 8 2 ∷ item 9 2 ∷ []) 7
    × (last_put local_state_key batch ≡ some (hard (record { term = 2; vote = 3; commit = 8 })))
compact_to_example =
    compact_to_lem log_engine storage five_items.entries 7 storage-StandsFor storage-stored 8
      (ground arith) (ground arith) true

abbrev first_replicas : List ReplicaDesc
first_replicas =
    (record { id = 2; node_id = 1; role = some voter })
    ∷ (record { id = 1; node_id = 1; role = some learner })
    ∷ []

initial_batch_example :
    (es : List LogEntry) × (hs : HardState) × (initial_batch
        (λ _. 1 ∷ [])
        (λ _. 2 ∷ [])
        true
        7
        first_replicas
        []
      ≡ clean
        ∷ add_entries es
        ∷ put_message hard_state_key (hard hs)
        ∷ put_message local_state_key (
            local
              (record { replica_id = 7; last_truncated = some (record { index = 5; term = 0 }) }))
        ∷ [])
    × IsRun 6 es
    × (length es ≡ 2)
    × (hs.commit ≡ (if is_nil es then 0 else 5 + length es))
unfolding initial_index_of
initial_batch_example = initial_batch_lem (λ _. 1 ∷ []) (λ _. 2 ∷ []) true 7 first_replicas []
