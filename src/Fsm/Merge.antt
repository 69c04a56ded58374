-- ===== src/Fsm/Merge.antt =====
-- What an entry stages on top of other staged entries of src/server/src/node/replica/fsm/mod.rs: the
-- same as on its own, merged into what was there.
use engula.Engine.{GroupEngineCore}
use engula.Fsm.{
  apply_migration_op, move_to, apply_migration, apply_add_shard, migration_event, Plugged,
  apply_change_replicas, descriptor, must_migration_state,
}
use engula.Meta.{
  finished, get_migration_desc, is_step, migrated, MigrationDesc, apply, GroupDesc, Migration,
  MigrationEvent, ShardDesc, abort, commit, ingest, setup, ChangeReplicas, MigrationState,
}
use engula.Prelude.{
  or_else, debug_assert, unwrap, ◌>>◌, ok_parts, ◌>>=◌, arith, Bool, Option, none, ok, some, ◌++◌,
  ◌||◌, ◌≡◌,
}
use engula.Error.{Result}

-- `q` staged after `p`.
abbrev pub merge : Plugged → Plugged → Plugged
merge p q = record {
  write_batches = p.write_batches ++ q.write_batches;
  write_states = record {
    apply_state = or_else q.write_states.apply_state p.write_states.apply_state;
    descriptor = or_else q.write_states.descriptor p.write_states.descriptor;
    migration_state = or_else q.write_states.migration_state p.write_states.migration_state;
  };
  desc_updated = q.desc_updated || p.desc_updated;
  migration_state_updated = q.migration_state_updated || p.migration_state_updated;
}

module _ (checks : Bool) (core c : GroupEngineCore) (p q : Plugged)
    (same_desc : descriptor core (merge p q) ≡ descriptor c q)
    (same_state : (s : MigrationState)
      → must_migration_state c q ≡ ok s
      → must_migration_state core (merge p q) ≡ ok s) where
  pub change_replicas-merge :
      (cc : ChangeReplicas) (r : Plugged)
      → apply_change_replicas checks c cc q ≡ ok r
      → apply_change_replicas checks core cc (merge p q) ≡ ok (merge p r)
  unfolding apply_change_replicas
  change_replicas-merge cc r h = ground arith

  pub add_shard-merge :
      (shard : Option ShardDesc) (d : GroupDesc) (r : GroupDesc × Plugged)
      → apply_add_shard checks c shard d q ≡ ok r
      → apply_add_shard checks core shard d (merge p q) ≡ ok (r.0, merge p r.1)
  unfolding apply_add_shard
  add_shard-merge none d r h = ground arith
  add_shard-merge (some shard) d r h = ground arith

  apply_migration-merge :
      (m : MigrationDesc) (d : GroupDesc) (r : GroupDesc × Plugged)
      → apply_migration checks c m d q ≡ ok r
      → apply_migration checks core m d (merge p q) ≡ ok (r.0, merge p r.1)
  unfolding apply_migration
  apply_migration-merge m d r h = ground arith

  -- The events that continue a migration, from its state on.
  continue-merge :
      (rest rest' : MigrationState → Result (GroupDesc × Plugged)) (r : GroupDesc × Plugged)
      → ((s : MigrationState) → rest s ≡ ok r → rest' s ≡ ok (r.0, merge p r.1))
      → (must_migration_state c q >>= rest) ≡ ok r
      → (must_migration_state core (merge p q) >>= rest') ≡ ok (r.0, merge p r.1)
  continue-merge rest rest' r step h =
      let inv = ok_parts (must_migration_state c q) rest h in
      rw (same_state inv.0 inv.1) (step inv.0 inv.2)

  -- What the arm of `apply` does from the state on.
  abbrev finish :
      GroupEngineCore → MigrationState → GroupDesc → Plugged → Result (GroupDesc × Plugged)
  finish x s d z =
      debug_assert checks (is_step migrated s.step)
      >> (get_migration_desc s >>= λ md.
          apply_migration checks x md d z >>= λ r. ok (r.0, move_to checks x finished s r.1))

  finish-merge :
      (s : MigrationState) (d : GroupDesc) (r : GroupDesc × Plugged)
      → finish c s d q ≡ ok r
      → finish core s d (merge p q) ≡ ok (r.0, merge p r.1)
  unfolding move_to
  finish-merge s d r e =
      let i1 = ok_parts (debug_assert checks (is_step migrated s.step)) _ e in
      let i2 = ok_parts (get_migration_desc s) _ i1.2 in
      let i3 = ok_parts (apply_migration checks c i2.0 d q) _ i2.2 in
      rw (i1.1, i2.1, apply_migration-merge i2.0 d i3.0 i3.1) (ground (arith, i3.2))

  migration_event-merge :
      (event : MigrationEvent) (m : Migration) (d : GroupDesc) (r : GroupDesc × Plugged)
      → migration_event checks c event m d q ≡ ok r
      → migration_event checks core event m d (merge p q) ≡ ok (r.0, merge p r.1)
  unfolding migration_event
  migration_event-merge setup m d r h = ground arith
  migration_event-merge ingest m d r h = continue-merge _ _ r (λ s e. ground arith) h
  migration_event-merge commit m d r h = continue-merge _ _ r (λ s e. ground arith) h
  migration_event-merge engula.Meta.apply m d r h =
      continue-merge _ _ r (λ s e. finish-merge s d r e) h
  migration_event-merge abort m d r h = continue-merge _ _ r (λ s e. ground arith) h

  pub migration_op-merge :
      (m : Option Migration) (d : GroupDesc) (r : GroupDesc × Plugged)
      → apply_migration_op checks c m d q ≡ ok r
      → apply_migration_op checks core m d (merge p q) ≡ ok (r.0, merge p r.1)
  unfolding apply_migration_op
  migration_op-merge none d r h = ground arith
  migration_op-merge (some m) d r h = event_merge m.event m d r h
    where
      event_merge :
          (event : Option MigrationEvent) (m : Migration) (d : GroupDesc) (r : GroupDesc × Plugged)
          → (unwrap event >>= λ event. migration_event checks c event m d q) ≡ ok r
          → (unwrap event >>= λ event. migration_event checks core event m d (merge p q))
            ≡ ok (r.0, merge p r.1)
      event_merge none m d r h = cc
      event_merge (some event) m d r h = migration_event-merge event m d r h
