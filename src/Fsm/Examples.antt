-- ===== src/Fsm/Examples.antt =====
-- Runs of the state machine, and the theorems about it at a small engine.
use engula.Error.{rocks_db}
use engula.Fsm.{
  Plugged, apply_at, apply_migration, descriptor_updated, migrate_state_updated,
  must_migration_state, proposal, term_updated, unplugged,
}
use engula.Fsm.Batching.{IsSettledCore}
use engula.Fsm.Machine.{
  Entry, GroupStateMachine, apply_all, apply_one, finish_plug, run_plug, start_plug,
}
use engula.Fsm.Rounds.{run_each, run_plug-run_each}
use engula.Meta.{
  finished, GroupDesc, MigrationDesc, MigrationEvent, ShardDesc, apply, commit, ingest, migrated,
  migrating, op_migration, prepare, setup, voter,
}
use engula.Prelude.{
  assertion, panic, List, [], err, none, ok, refl, some, true, ℕ, ◌+◌, ◌^◌, ◌∷◌, ◌≡◌, ◌⊎◌,
}
use engula.Fsm.Epoch.{IsNewer, run_plug-IsNewer}
use engula.Engine.{
  no_states, GroupEngineCore, RawDb, apply_core_states, commit_core, group_commit, index_shards,
}

-- A database that takes every write and keeps only how many there were.
abbrev counting : RawDb
counting = record { Store = ℕ; write_opt = λ ops persisted n. some (n + 1) }

abbrev shard_nine : ShardDesc
shard_nine = record { id = 9; collection_id = 3; partition = none }

abbrev group_one : GroupDesc
group_one = record {
  id = 1;
  epoch = 4;
  shards = [];
  replicas = (record { id = 11; node_id = 1; role = some voter }) ∷ [];
}

abbrev empty_core : GroupEngineCore
empty_core = record { group_desc = group_one; shard_descs = []; migration_state = none }

empty_core-IsSettledCore : IsSettledCore empty_core
unfolding index_shards
empty_core-IsSettledCore = record { indexed = refl; settled = refl }

abbrev machine : GroupStateMachine counting
machine = record {
  engine = record { store = 0; core = empty_core };
  plugged = unplugged;
  last_applied_term = 1;
  observed = [];
}

abbrev migrate_in : MigrationDesc
migrate_in = record {
  shard_desc = some shard_nine;
  src_group_id = 2;
  src_group_epoch = 6;
  dest_group_id = 1;
  dest_group_epoch = 4;
}

abbrev event_entry : ℕ → MigrationEvent → Entry
event_entry index event = record {
  index = index;
  term = 2;
  entry = proposal (record { batch = none; op = some (op_migration event migrate_in) });
}

-- The four events of a migration into the group, with a write between them.
abbrev life : List Entry
life =
    event_entry 2 ingest
    ∷ (record {
      index = 3;
      term = 2;
      entry = proposal (record { batch = some (1 ∷ 2 ∷ []); op = none });
    })
    ∷ event_entry 4 commit
    ∷ event_entry 5 apply
    ∷ []

-- What the life of the migration ends in, with a commit for each entry.
abbrev grown : GroupDesc
grown = record group_one { epoch = 6 + 2 ^ 32; shards = shard_nine ∷ [] }

abbrev final_machine : GroupStateMachine counting
final_machine = record {
  engine = record {
    store = 5;
    core = record {
      group_desc = grown;
      shard_descs = (9, shard_nine) ∷ [];
      migration_state = none;
    };
  };
  plugged = unplugged;
  last_applied_term = 2;
  observed =
      term_updated 2
      ∷ migrate_state_updated (
          some (record {
            migration_desc = some migrate_in;
            last_migrated_key = [];
            step = some prepare;
          }))
      ∷ migrate_state_updated (
          some (record {
            migration_desc = some migrate_in;
            last_migrated_key = [];
            step = some migrating;
          }))
      ∷ migrate_state_updated (
          some (record {
            migration_desc = some migrate_in;
            last_migrated_key = [];
            step = some migrated;
          }))
      ∷ descriptor_updated grown
      ∷ migrate_state_updated none
      ∷ [];
}

run_each-life : run_each counting true (event_entry 1 setup ∷ life) machine ≡ ok final_machine
unfolding run_each run_plug start_plug apply_all apply_one apply_at finish_plug group_commit
    commit_core apply_core_states index_shards apply_migration must_migration_state
run_each-life = refl

run_plug-run_each_example :
    (run_plug counting true (event_entry 1 setup ∷ life) machine ≡ err rocks_db)
    ⊎ ((m2 : GroupStateMachine counting) × (run_plug counting true
            (event_entry 1 setup ∷ life)
            machine
          ≡ ok m2)
        × (m2.engine.core ≡ final_machine.engine.core)
        × (m2.plugged ≡ unplugged))
run_plug-run_each_example =
    run_plug-run_each counting true (event_entry 1 setup) life machine final_machine refl
      empty_core-IsSettledCore run_each-life

-- The same life in one plug: one write, and the observer hears of the outcome alone.
abbrev final_plugged : GroupStateMachine counting
final_plugged = record final_machine {
  engine = record { store = 1; core = final_machine.engine.core };
  observed = descriptor_updated grown ∷ term_updated 2 ∷ migrate_state_updated none ∷ [];
}

run_plug-life : run_plug counting true (event_entry 1 setup ∷ life) machine ≡ ok final_plugged
unfolding run_plug start_plug apply_all apply_one apply_at finish_plug group_commit commit_core
    apply_core_states index_shards apply_migration must_migration_state
run_plug-life = refl

run_plug-IsNewer_example : IsNewer group_one final_plugged.engine.core.group_desc
run_plug-IsNewer_example =
    run_plug-IsNewer counting (event_entry 1 setup ∷ life) machine final_plugged refl
      empty_core-IsSettledCore run_plug-life

-- The state that a migration to `group_one` has once it is committed.
abbrev committed : Plugged
committed = record unplugged {
  write_states = record no_states {
    migration_state =
        some (record {
          migration_desc = some migrate_in;
          last_migrated_key = [];
          step = some migrated;
        });
  };
}

abbrev applied : Plugged
applied = record {
  write_batches = [];
  write_states = record {
    apply_state = some (record { index = 5; term = 2 });
    descriptor = some grown;
    migration_state =
        some (record {
          migration_desc = some migrate_in;
          last_migrated_key = [];
          step = some finished;
        });
  };
  desc_updated = true;
  migration_state_updated = true;
}

abbrev early : Plugged
early = record unplugged {
  write_states = record no_states {
    migration_state =
        some (record {
          migration_desc = some migrate_in;
          last_migrated_key = [];
          step = some prepare;
        });
  };
}

-- The event needs the step: a debug build stops at a migration that is not committed yet.
apply_too_early : apply_at true empty_core 5 2 (event_entry 5 apply).entry early ≡ panic assertion
unfolding apply_at must_migration_state
apply_too_early = refl

abbrev source : GroupDesc
source = record { id = 2; epoch = 6; shards = shard_nine ∷ []; replicas = [] }

abbrev source_after : GroupDesc × Plugged
source_after =
    (record source { epoch = 6 + 2 ^ 32; shards = [] }, record unplugged { desc_updated = true })

abbrev dest_after : GroupDesc × Plugged
dest_after = (grown, record unplugged { desc_updated = true })
