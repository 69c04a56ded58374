-- ===== src/Fsm.antt =====
-- src/server/src/node/replica/fsm/mod.rs: the state machine of a group, which applies the entries
-- that raft has committed. Entries are applied between `start_plug` and `finish_plug`, which commits
-- what they staged to the group engine and tells the observer. `checks` is the build profile (see
-- Prelude.Outcomes); the observer's calls are a list, in their order; log lines are left out.
pub mod Machine
pub mod Merge
pub mod Batching
pub mod Rounds
pub mod Epoch
pub mod Steps
pub mod Handover
mod Examples
use engula.Engine.{GroupEngineCore, WriteStates, no_states}
use engula.Error.{Result}
use engula.Meta.{
  AddShard, Bytes, ChangeReplica, ChangeReplicas, EvalResult, GroupDesc, Migration, MigrationDesc,
  MigrationEvent, MigrationState, MigrationStep, ShardDesc, SyncOp, abort, aborted, apply, commit,
  finished, get_migration_desc, get_shard_desc, ingest, is_step, migrated, migrating, prepare,
  setup,
}
use engula.Prelude.{
  ◌>>◌, Bool, List, Option, [], add_u64, any, debug_assert, false, if◌then◌else◌, max, none, not,
  ok, out_of_bounds, panic, retain, shard_exists, some, true, unwrap, unwrap_or, ℕ, ◌++◌, ◌==◌,
  ◌>>=◌, ◌^◌, ◌||◌, ◌∷◌,
}
use engula.ConfigChange.{
  ChangeReplicaKind, apply_enter_joint, apply_leave_joint, apply_simple_change, enter_joint,
  kind_of, leave_joint, simple,
}

abbrev pub shard_update_delta : ℕ
shard_update_delta = 2 ^ 32

abbrev pub config_change_delta : ℕ
config_change_delta = 1

-- The calls of `StateMachineObserver`.
pub data Notification : Type 0 where
  descriptor_updated : GroupDesc → Notification
  term_updated : ℕ → Notification
  migrate_state_updated : Option MigrationState → Notification

pub data ApplyEntry : Type 0 where
  empty : ApplyEntry
  config_change : ChangeReplicas → ApplyEntry
  proposal : EvalResult → ApplyEntry

-- What the entries of a plug have staged, and the two marks of what changed.
pub record Plugged : Type 0 where
  pub write_batches : List Bytes
  pub write_states : WriteStates
  pub desc_updated : Bool
  pub migration_state_updated : Bool

abbrev pub unplugged : Plugged
unplugged = record {
  write_batches = [];
  write_states = no_states;
  desc_updated = false;
  migration_state_updated = false;
}

-- `GroupStateMachine::descriptor`: the staged descriptor, else the engine's.
abbrev pub descriptor : GroupEngineCore → Plugged → GroupDesc
descriptor core p = unwrap_or p.write_states.descriptor core.group_desc

-- `must_migration_state`
unfoldable pub must_migration_state : GroupEngineCore → Plugged → Result MigrationState
must_migration_state core p = elim p.write_states.migration_state [
  | none ↦ unwrap core.migration_state
  | some s ↦ ok s
]

abbrev stage_desc : GroupDesc → Plugged → Plugged
stage_desc d p = record p { write_states = record (p.write_states) { descriptor = some d } }

abbrev stage_migration : MigrationState → Plugged → Plugged
stage_migration s p = record p {
  write_states = record (p.write_states) { migration_state = some s };
}

first_change : List ChangeReplica → Result ChangeReplica
first_change [] = panic out_of_bounds
first_change (c ∷ _) = ok c

pub change_desc : ChangeReplicaKind → ChangeReplicas → GroupDesc → Result GroupDesc
unfolding first_change
change_desc leave_joint cc desc = ok (apply_leave_joint desc)
change_desc enter_joint cc desc = apply_enter_joint desc cc.changes
change_desc simple cc desc = first_change cc.changes >>= apply_simple_change desc

pub push_batch : Option Bytes → Plugged → Plugged
push_batch none p = p
push_batch (some wb) p = record p { write_batches = p.write_batches ++ wb ∷ [] }

pub op_shard : Option AddShard → Option ShardDesc
op_shard none = none
op_shard (some a) = a.shard

module _ (checks : Bool) (core : GroupEngineCore) where
  unfoldable pub apply_change_replicas : ChangeReplicas → Plugged → Result Plugged
  unfolding change_desc
  apply_change_replicas cc p = do
    desc ← change_desc (kind_of cc) cc (descriptor core p)
    epoch ← add_u64 checks desc.epoch config_change_delta
    ok (stage_desc (record desc { epoch = epoch }) (record p { desc_updated = true }))

  -- The block under `if let Some(AddShard { shard: Some(shard) })`, over the staged descriptor.
  add_shard : ShardDesc → GroupDesc → Plugged → Result (GroupDesc × Plugged)
  add_shard shard desc p =
      if any (λ s. s.id == shard.id) desc.shards then panic shard_exists else do
        epoch ← add_u64 checks desc.epoch shard_update_delta
        ok (
          record desc { epoch = epoch; shards = desc.shards ++ shard ∷ [] },
          record p { desc_updated = true },
        )

  pub apply_add_shard : Option ShardDesc → GroupDesc → Plugged → Result (GroupDesc × Plugged)
  unfolding add_shard
  apply_add_shard none desc p = ok (desc, p)
  apply_add_shard (some shard) desc p = add_shard shard desc p

  -- The two ends of a migration: the source group drops the shard, the other one takes it.
  move_shard : MigrationDesc → ShardDesc → GroupDesc → Result GroupDesc
  move_shard m shard desc =
      if m.src_group_id == desc.id
      then ok (record desc { shards = retain (λ r. not (r.id == shard.id)) desc.shards })
      else (debug_assert checks (m.dest_group_id == desc.id)
          >> ok (record desc { shards = desc.shards ++ shard ∷ [] }))

  unfoldable pub apply_migration :
      MigrationDesc → GroupDesc → Plugged → Result (GroupDesc × Plugged)
  unfolding move_shard
  apply_migration m desc p = do
    shard ← get_shard_desc m
    let inherited = max desc.epoch (max m.src_group_epoch m.dest_group_epoch)
    epoch ← add_u64 checks inherited shard_update_delta
    desc' ← move_shard m shard (record desc { epoch = epoch })
    ok (desc', record p { desc_updated = true })

  -- Stages a state with another step, which the controller is told.
  pub move_to : MigrationStep → MigrationState → Plugged → Plugged
  move_to step s p = record (stage_migration (record s { step = some step }) p) {
    migration_state_updated = true;
  }

  -- The arms of the `match` on the event.
  on_setup : Option MigrationDesc → GroupDesc → Plugged → Result (GroupDesc × Plugged)
  on_setup none desc p = ok (desc, p)
  on_setup (some m) desc p = ok (
    desc,
    record (stage_migration
        (record { migration_desc = some m; last_migrated_key = []; step = some prepare }) p) {
          migration_state_updated = true;
        },
  )

  on_ingest : Bytes → MigrationState → Plugged → Result Plugged
  on_ingest key s p =
      let s' = if is_step prepare s.step then record s { step = some migrating } else s in
      let p' = if is_step prepare s.step then record p { migration_state_updated = true } else p in
      debug_assert checks (is_step migrating s'.step) >>= λ _.
      ok (stage_migration (record s' { last_migrated_key = key }) p')

  pub migration_event :
      MigrationEvent → Migration → GroupDesc → Plugged → Result (GroupDesc × Plugged)
  unfolding on_setup on_ingest move_to
  migration_event setup m desc p = on_setup m.migration_desc desc p
  migration_event ingest m desc p = do
    s ← must_migration_state core p
    p' ← on_ingest m.last_ingested_key s p
    ok (desc, p')
  migration_event commit m desc p = do
    s ← must_migration_state core p
    debug_assert checks (is_step migrating s.step || is_step prepare s.step)
    ok (desc, move_to migrated s p)
  migration_event apply m desc p = do
    s ← must_migration_state core p
    debug_assert checks (is_step migrated s.step)
    md ← get_migration_desc s
    r ← apply_migration md desc p
    ok (r.0, move_to finished s r.1)
  migration_event abort m desc p = do
    s ← must_migration_state core p
    debug_assert checks (is_step prepare s.step)
    ok (desc, move_to aborted s p)

  pub apply_migration_event : Migration → GroupDesc → Plugged → Result (GroupDesc × Plugged)
  unfolding migration_event
  apply_migration_event m desc p = unwrap m.event >>= λ event. migration_event event m desc p

  pub apply_migration_op : Option Migration → GroupDesc → Plugged → Result (GroupDesc × Plugged)
  unfolding apply_migration_event
  apply_migration_op none desc p = ok (desc, p)
  apply_migration_op (some m) desc p = apply_migration_event m desc p

  pub apply_op : Option SyncOp → Plugged → Result Plugged
  unfolding op_shard apply_add_shard apply_migration_op
  apply_op none p = ok p
  apply_op (some op) p = do
    r ← apply_add_shard (op_shard op.add_shard) (descriptor core p) p
    r' ← apply_migration_op op.migration r.0 r.1
    ok (stage_desc r'.0 r'.1)

  unfoldable pub apply_proposal : EvalResult → Plugged → Result Plugged
  unfolding push_batch apply_op
  apply_proposal result p = apply_op result.op (push_batch result.batch p)

  pub apply_entry : ApplyEntry → Plugged → Result Plugged
  unfolding apply_change_replicas apply_proposal
  apply_entry empty p = ok p
  apply_entry (config_change cc) p = apply_change_replicas cc p
  apply_entry (proposal result) p = apply_proposal result p

  -- `GroupStateMachine::apply`
  unfoldable pub apply_at : ℕ → ℕ → ApplyEntry → Plugged → Result Plugged
  unfolding apply_entry
  apply_at index term entry p = do
    p' ← apply_entry entry p
    ok (record p' {
      write_states = record (p'.write_states) {
        apply_state = some (record { index = index; term = term });
      };
    })
