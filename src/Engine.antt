-- ===== src/Engine.antt =====
-- The states that a group engine keeps in memory beside the data, from
-- src/server/src/node/engine/group.rs: `WriteStates`, `GroupEngineCore` and `apply_core_states`.
-- The key-value store under it is another crate: it is a parameter (`RawDb`).
pub mod Core
pub mod Keys
pub mod Batch
pub mod Snapshot
mod Examples
use engula.Meta.{
  Bytes, EntryId, GroupDesc, MigrationState, MigrationStep, ShardDesc, aborted, finished, is_step,
  state_shard_desc,
}
use engula.Prelude.{
  ◌>>◌, Bool, List, Option, [], err, if◌then◌else◌, is_some, map, none, ok, some, ℕ, ◌++◌, ◌==◌,
  ◌>>=◌, ◌||◌, ◌∷◌,
}
use engula.Error.{Result, rocks_db, shard_not_found}

pub record WriteStates : Type 0 where
  pub apply_state : Option EntryId
  pub descriptor : Option GroupDesc
  pub migration_state : Option MigrationState

-- `WriteStates::default`
abbrev pub no_states : WriteStates
no_states = record { apply_state = none; descriptor = none; migration_state = none }

-- A hash map from shard ids.
abbrev pub ShardDescs : Type 0
ShardDescs = List (ℕ × ShardDesc)

pub record GroupEngineCore : Type 0 where
  pub group_desc : GroupDesc
  pub shard_descs : ShardDescs
  pub migration_state : Option MigrationState

abbrev pub lookup : ℕ → ShardDescs → Option ShardDesc
lookup id [] = none
lookup id ((k, d) ∷ m) = if k == id then some d else lookup id m

-- `HashMap::insert`
abbrev pub insert : ℕ → ShardDesc → ShardDescs → ShardDescs
insert id d [] = (id, d) ∷ []
insert id d ((k, e) ∷ m) = if k == id then (id, d) ∷ m else (k, e) ∷ insert id d m

-- `entry(id).or_insert(d)`
or_insert : ℕ → ShardDesc → ShardDescs → ShardDescs
or_insert id d m = if is_some (lookup id m) then m else insert id d m

-- `internal::shard_descs`: the shards of a descriptor by their ids, a later one replacing an earlier.
shard_descs_from : List ShardDesc → ShardDescs → ShardDescs
shard_descs_from [] m = m
shard_descs_from (s ∷ ss) m = shard_descs_from ss (insert s.id s m)

-- A finished or aborted migration is not kept.
abbrev pub is_over : Option MigrationStep → Bool
is_over step = is_step finished step || is_step aborted step

set_desc : Option GroupDesc → GroupEngineCore → GroupEngineCore
set_desc none core = core
set_desc (some desc) core = record core { group_desc = desc }

set_migration : Option MigrationState → GroupEngineCore → GroupEngineCore
set_migration none core = core
set_migration (some state) core =
    if is_over state.step
    then record core { migration_state = none }
    else record core { migration_state = some state }

-- The shards that the engine serves: those of the descriptor, and the one that migrates.
unfoldable pub index_shards : Option MigrationState → GroupEngineCore → Result GroupEngineCore
unfolding or_insert shard_descs_from
index_shards none core =
    ok (record core { shard_descs = shard_descs_from core.group_desc.shards [] })
index_shards (some state) core = do
  shard ← state_shard_desc state
  ok (record core {
    shard_descs = or_insert shard.id shard (shard_descs_from core.group_desc.shards []);
  })

unfoldable pub apply_core_states :
    Option GroupDesc → Option MigrationState → GroupEngineCore → Result GroupEngineCore
unfolding set_desc set_migration
apply_core_states descriptor migration_state core =
    let core' = set_migration migration_state (set_desc descriptor core) in
    index_shards core'.migration_state core'

-- What the database is written: the batches of a commit, with its states as messages.
pub data WriteOp : Type 0 where
  data_batch : Bytes → WriteOp
  put_apply_state : EntryId → WriteOp
  put_descriptor : GroupDesc → WriteOp
  put_migration_state : MigrationState → WriteOp
  delete_migration_state : WriteOp

-- The database: a write of all operations at once, which may fail.
pub record RawDb : Type 1 where
  pub Store : Type 0
  pub write_opt : List WriteOp → Bool → Store → Option Store

write_apply_state : Option EntryId → List WriteOp
write_apply_state none = []
write_apply_state (some a) = put_apply_state a ∷ []

write_descriptor : Option GroupDesc → List WriteOp
write_descriptor none = []
write_descriptor (some d) = put_descriptor d ∷ []

write_migration : Option MigrationState → List WriteOp
write_migration none = []
write_migration (some m) =
    if is_over m.step then delete_migration_state ∷ [] else put_migration_state m ∷ []

-- `WriteStates::write`
unfoldable pub write_states : WriteStates → List WriteOp
unfolding write_apply_state write_descriptor write_migration
write_states s =
    write_apply_state s.apply_state
    ++ (write_descriptor s.descriptor ++ write_migration s.migration_state)

-- The part of `group_commit` behind the write.
unfoldable pub commit_core : WriteStates → GroupEngineCore → Result GroupEngineCore
commit_core states core =
    if is_some states.descriptor || is_some states.migration_state
    then apply_core_states states.descriptor states.migration_state core
    else ok core

module _ (db : RawDb) where
  open db use {Store, write_opt}

  pub record GroupEngine : Type 0 where
    pub store : Store
    pub core : GroupEngineCore

  pub written : Option Store → WriteStates → GroupEngine → Result GroupEngine
  written none states e = err rocks_db
  written (some store) states e =
      commit_core states e.core >>= λ core. ok (record { store = store; core = core })

  unfoldable pub group_commit : List Bytes → WriteStates → Bool → GroupEngine → Result GroupEngine
  unfolding written write_states
  group_commit wbs states persisted e =
      written (write_opt (map data_batch wbs ++ write_states states) persisted e.store) states e

-- `GroupEngine::shard_desc`
unfoldable pub shard_desc : ℕ → GroupEngineCore → Result ShardDesc
shard_desc id core = elim (lookup id core.shard_descs) [
  | none ↦ err (shard_not_found id)
  | some d ↦ ok d
]
