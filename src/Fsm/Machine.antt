-- ===== src/Fsm/Machine.antt =====
-- `GroupStateMachine` of src/server/src/node/replica/fsm/mod.rs: the plug around the entries, the
-- commit to the group engine and the calls of the observer.
use engula.Error.{Result}
use engula.Fsm.{
  ApplyEntry, Notification, Plugged, apply_at, descriptor_updated, migrate_state_updated,
  term_updated,
}
use engula.Prelude.{
  Bool, List, [], assert, false, if◌then◌else◌, is_some, ltb, not, ok, true, unwrap, ℕ, ◌++◌, ◌>>=◌,
  ◌>>◌, ◌∷◌,
}
use engula.Engine.{GroupEngine, RawDb, group_commit, no_states}

-- The fields `cfg` and `info` only feed log lines and the snapshot builder.
pub record GroupStateMachine (db : RawDb) : Type 0 where
  pub engine : GroupEngine db
  pub plugged : Plugged
  pub last_applied_term : ℕ
  pub observed : List Notification

-- One entry as raft hands it over.
pub record Entry : Type 0 where
  pub index : ℕ
  pub term : ℕ
  pub entry : ApplyEntry

module _ (db : RawDb) where
  -- `GroupStateMachine::start_plug`
  unfoldable pub start_plug : GroupStateMachine db → Result (Unit {0})
  start_plug m = do
    assert (elim m.plugged.write_batches [ [] ↦ true | _ ∷ _ ↦ false ])
    assert (not (is_some m.plugged.write_states.apply_state))

  flush_desc : GroupStateMachine db → GroupStateMachine db
  flush_desc m =
      if m.plugged.desc_updated
      then record m {
        plugged = record (m.plugged) { desc_updated = false };
        observed = m.observed ++ descriptor_updated m.engine.core.group_desc ∷ [];
      }
      else m

  flush_term : ℕ → GroupStateMachine db → GroupStateMachine db
  flush_term term m =
      if ltb m.last_applied_term term
      then record m { last_applied_term = term; observed = m.observed ++ term_updated term ∷ [] }
      else m

  flush_migration : GroupStateMachine db → GroupStateMachine db
  flush_migration m =
      if m.plugged.migration_state_updated
      then record m {
        plugged = record (m.plugged) { migration_state_updated = false };
        observed = m.observed ++ migrate_state_updated m.engine.core.migration_state ∷ [];
      }
      else m

  unfoldable pub flush_updated_events : ℕ → GroupStateMachine db → GroupStateMachine db
  unfolding flush_desc flush_term flush_migration
  flush_updated_events term m = flush_migration (flush_term term (flush_desc m))

  -- `GroupStateMachine::finish_plug`. The panic is for a plug in which nothing was applied.
  unfoldable pub finish_plug : GroupStateMachine db → Result (GroupStateMachine db)
  unfolding flush_updated_events
  finish_plug m = do
    applied ← unwrap m.plugged.write_states.apply_state
    engine ← group_commit db m.plugged.write_batches m.plugged.write_states false m.engine
    ok (
        flush_updated_events applied.term (record m {
          engine = engine;
          plugged = record (m.plugged) { write_batches = []; write_states = no_states };
        }))

  module _ (checks : Bool) where
    -- `GroupStateMachine::apply`
    unfoldable pub apply_one : Entry → GroupStateMachine db → Result (GroupStateMachine db)
    apply_one e m = do
      p ← apply_at checks m.engine.core e.index e.term e.entry m.plugged
      ok (record m { plugged = p })

    unfoldable pub apply_all : List Entry → GroupStateMachine db → Result (GroupStateMachine db)
    apply_all [] m = ok m
    apply_all (e ∷ es) m = apply_one e m >>= apply_all es

    -- One plug around the entries of a round, as the applier of src/server/src/raftgroup/applier.rs
    -- calls the three; its check of the entries' indices is not part of it.
    unfoldable pub run_plug : List Entry → GroupStateMachine db → Result (GroupStateMachine db)
    run_plug es m = do start_plug m; m' ← apply_all es m; finish_plug m'
