-- ===== src/Fsm/Steps.antt =====
-- The steps of a shard migration as a diagram, and the entries of
-- src/server/src/node/replica/fsm/mod.rs as moves in it.
use engula.Fsm.{Plugged}
use engula.Meta.{MigrationState, MigrationStep, aborted, finished, migrated, migrating, prepare}
use engula.Prelude.{Option, none, or_else, some}
use engula.Error.{Error}
use engula.Engine.{GroupEngineCore}

-- The migration that the state machine sees, and its step.
abbrev pub current_state : GroupEngineCore → Plugged → Option MigrationState
current_state core p = or_else p.write_states.migration_state core.migration_state

abbrev pub step_of : Option MigrationState → Option MigrationStep
step_of none = none
step_of (some s) = s.step

abbrev pub current_step : GroupEngineCore → Plugged → Option MigrationStep
current_step core p = step_of (current_state core p)

-- One entry's move. A setup is taken at any step.
pub data Move : Option MigrationStep → Option MigrationStep → Type 0 where
  stay : {s : Option MigrationStep} → Move s s
  set_up : {s : Option MigrationStep} → Move s (some prepare)
  pull : Move (some prepare) (some migrating)
  commit_first : Move (some prepare) (some migrated)
  commit_pulled : Move (some migrating) (some migrated)
  finish : Move (some migrated) (some finished)
  give_up : Move (some prepare) (some aborted)
