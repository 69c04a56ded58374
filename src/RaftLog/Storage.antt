-- ===== src/RaftLog/Storage.antt =====
-- `Storage` of src/server/src/raftgroup/storage.rs: the range of the log, the states that go with
-- it, and what raft reads of them. The raft engine and the snapshot manager are parameters.
pub mod Reads
pub mod Opening
pub mod Terms
pub mod Writing
pub mod Compaction
use engula.Error.{Result}
use engula.Meta.{EntryId}
use engula.Prelude.{
  Bool, List, Option, Outcome, [], assert, called_twice, err, false, high_out_of_bound,
  if◌then◌else◌, leb, low_above_high, ltb, none, ok, panic, some, true, unwrap, unwrap_or, ℕ, ◌++◌,
  ◌+◌, ◌>>=◌, ◌>>◌, ◌∷◌,
}
use engula.RaftLog.Cache.{EntryCache, LogEntry, append, back_index, drains_to, new}
use engula.ConfigChange.ConfState.{ConfState}

pub record HardState : Type 0 where
  pub term : ℕ
  pub vote : ℕ
  pub commit : ℕ

pub record RaftLocalState : Type 0 where
  pub replica_id : ℕ
  pub last_truncated : Option EntryId

pub data RaftError : Type 0 where
  compacted : RaftError
  snapshot_temporarily_unavailable : RaftError
  other : RaftError

-- The calls of the raft engine that read, each by replica: what it fails with is one error.
pub record RaftEngine : Type 0 where
  pub first_index : ℕ → Option ℕ
  pub last_index : ℕ → Option ℕ
  pub hard_state : ℕ → Outcome RaftError (Option HardState)
  pub local_state : ℕ → Outcome RaftError (Option RaftLocalState)
  pub get_entry : ℕ → ℕ → Outcome RaftError (Option LogEntry)
  pub fetch_entries_to : ℕ → ℕ → ℕ → Option ℕ → List LogEntry → Outcome RaftError (List LogEntry)

-- A command of a `LogBatch`. A message is put under a key.
pub data Key : Type 0 where
  hard_state_key : Key
  local_state_key : Key

pub data Message : Type 0 where
  hard : HardState → Message
  local : RaftLocalState → Message

pub data LogCommand : Type 0 where
  clean : LogCommand
  compact : ℕ → LogCommand
  put_message : Key → Message → LogCommand
  add_entries : List LogEntry → LogCommand

-- The fields of a snapshot that are read are those of an entry id.
pub record WriteTask : Type 0 where
  pub hard_state : Option HardState
  pub snapshot : Option EntryId
  pub entries : List LogEntry

pub record Storage : Type 0 where
  pub replica_id : ℕ
  pub first_index : ℕ
  pub last_index : ℕ
  pub cache : EntryCache
  pub local_state : RaftLocalState
  pub hard_state : HardState
  pub initial_conf_state : Option ConfState
  pub create_snapshot : Bool
  pub is_creating_snapshot : Bool

-- `last_truncated_entry_id`
abbrev pub last_truncated_entry_id : Storage → EntryId
last_truncated_entry_id s = unwrap_or s.local_state.last_truncated (record { index = 0; term = 0 })

abbrev pub truncated_index : Storage → ℕ
truncated_index s = (last_truncated_entry_id s).index

abbrev pub truncated_term : Storage → ℕ
truncated_term s = (last_truncated_entry_id s).term

-- The ends of the half-open range.
abbrev pub range_of : Storage → ℕ × ℕ
range_of s = (s.first_index, s.last_index + 1)

unfoldable pub check_range : ℕ → ℕ → Storage → Outcome RaftError (Unit {0})
check_range low high s =
    if ltb high low
    then panic low_above_high
    else if ltb (s.last_index + 1) high
    then panic high_out_of_bound
    else if leb low (truncated_index s)
    then err compacted
    else ok tt

-- `self.hard_state = hs`, with the message for the engine.
write_hard_state : Option HardState → Storage × List LogCommand → Storage × List LogCommand
write_hard_state none r = r
write_hard_state (some hs) (s, batch) =
    (record s { hard_state = hs }, batch ++ put_message hard_state_key (hard hs) ∷ [])

abbrev snapshot_state : EntryId → Storage → RaftLocalState
snapshot_state metadata s = record {
  replica_id = s.replica_id;
  last_truncated = some (record { index = metadata.index; term = metadata.term });
}

-- The block under `if let Some(snapshot)`.
write_snapshot : EntryId → Storage × List LogCommand → Storage × List LogCommand
write_snapshot metadata (s, batch) =
    let hs = record (s.hard_state) { commit = metadata.index } in
    (
      record s {
        hard_state = hs;
        cache = new;
        first_index = metadata.index + 1;
        last_index = metadata.index;
        local_state = snapshot_state metadata s;
      },
      batch
          ++ clean
            ∷ put_message local_state_key (local (snapshot_state metadata s))
            ∷ put_message hard_state_key (hard hs)
            ∷ [],
    )

-- The block under `else if !write_task.entries.is_empty()`.
write_entries : List LogEntry → Storage × List LogCommand → Result (Storage × List LogCommand)
write_entries [] r = ok r
write_entries (e ∷ es) (s, batch) = do
  cache ← append (e ∷ es) s.cache
  last ← unwrap (back_index (e ∷ es))
  ok (record s { cache = cache; last_index = last }, batch ++ add_entries (e ∷ es) ∷ [])

abbrev is_empty : List LogEntry → Bool
is_empty [] = true
is_empty (_ ∷ _) = false

write_log :
    Option EntryId → List LogEntry → Storage × List LogCommand → Result (Storage × List LogCommand)
unfolding write_snapshot write_entries
write_log (some snapshot) entries r = assert (is_empty entries) >> ok (write_snapshot snapshot r)
write_log none entries r = write_entries entries r

-- `Storage::write`, with the batch that it adds to. The messages are taken to encode.
unfoldable pub write : WriteTask → Storage × List LogCommand → Result (Storage × List LogCommand)
unfolding write_hard_state write_log
write task r = write_log task.snapshot task.entries (write_hard_state task.hard_state r)

unfoldable pub post_apply : ℕ → Storage → Result Storage
post_apply applied s = drains_to applied s.cache >>= λ c. ok (record s { cache = c })

-- `initial_state`: the states for raft, once.
unfoldable pub initial_state : Storage → Outcome RaftError ((HardState × ConfState) × Storage)
initial_state s = elim s.initial_conf_state [
  | none ↦ panic called_twice
  | some cs ↦ ok ((s.hard_state, cs), record s { initial_conf_state = none })
]
