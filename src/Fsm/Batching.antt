-- ===== src/Fsm/Batching.antt =====
-- One plug around many entries of src/server/src/node/replica/fsm/mod.rs against one plug for each.
use engula.Engine.{commit_core, no_states, GroupEngineCore}
use engula.Fsm.{
  apply_change_replicas, ApplyEntry, apply_at, apply_entry, apply_proposal, config_change, empty,
  proposal, push_batch, unplugged, Plugged, apply_add_shard, apply_migration_op, apply_op,
  descriptor, must_migration_state, op_shard,
}
use engula.Fsm.Merge.{change_replicas-merge, add_shard-merge, migration_op-merge, merge}
use engula.Meta.{Bytes, GroupDesc, MigrationState, ShardDesc, SyncOp}
use engula.Engine.Core.{commit_core_lem, IsIndexed, settle}
use mathlib.Core.List.{append-nil}
use mathlib.Core.Path.{subst}
use engula.Prelude.{
  or_else, Option-cases, ap, inl, inr, ◌∙◌, refl, ℕ, ok_parts, Bool, Option, arith, none, ok, some,
  ◌≡◌,
}

-- What the two functions that read the staged states see.
record SameView (core c : GroupEngineCore) (p q : Plugged) : Type 0 where
  desc : descriptor core p ≡ descriptor c q
  state :
      (s : MigrationState) → must_migration_state c q ≡ ok s → must_migration_state core p ≡ ok s

module _ (checks : Bool) (core c : GroupEngineCore) where
  pub add_shard_states :
      (shard : Option ShardDesc) (d : GroupDesc) (q : Plugged) (r : GroupDesc × Plugged)
      → apply_add_shard checks c shard d q ≡ ok r
      → r.1.write_states ≡ q.write_states
  unfolding apply_add_shard
  add_shard_states none d q r h = ground arith
  add_shard_states (some shard) d q r h = ground arith

  SameView-states :
      (p q q' : Plugged)
      → q'.write_states ≡ q.write_states
      → SameView core c (merge p q) q
      → SameView core c (merge p q') q'
  unfolding must_migration_state
  SameView-states p q q' e v = record {
    desc = ground (arith, v.desc);
    state = λ s h. ground (arith, v.state s);
  }

  apply_op-merge :
      (op : Option SyncOp) (p q r : Plugged)
      → SameView core c (merge p q) q
      → apply_op checks c op q ≡ ok r
      → apply_op checks core op (merge p q) ≡ ok (merge p r)
  unfolding apply_op
  apply_op-merge none p q r v h = ground arith
  apply_op-merge (some op) p q r v h =
      let shard = op_shard op.add_shard in
      let i1 = ok_parts (apply_add_shard checks c shard (descriptor c q) q) _ h in
      let i2 = ok_parts (apply_migration_op checks c op.migration i1.0.0 i1.0.1) _ i1.2 in
      let v' = SameView-states p q i1.0.1 (add_shard_states shard (descriptor c q) q i1.0 i1.1) v in
      rw
        (
          v.desc,
          add_shard-merge checks core c p q v.desc v.state shard (descriptor c q) i1.0 i1.1,
          migration_op-merge checks core c p i1.0.1 v'.desc v'.state op.migration i1.0.0 i2.0 i2.1,
        )
        (ground (arith, i2.2))

-- How the plug in progress, `p` over the engine's `core`, stands to `c`, the engine as it would be
-- with every entry committed on its own.
pub record Sim (core : GroupEngineCore) (p : Plugged) (c : GroupEngineCore) : Type 0 where
  pub desc : descriptor core p ≡ c.group_desc
  pub state :
      settle (or_else p.write_states.migration_state core.migration_state) ≡ c.migration_state
  pub indexed : IsIndexed c

-- An engine between two plugs: its index is right, and it keeps no migration that is over.
pub record IsSettledCore (core : GroupEngineCore) : Type 0 where
  pub indexed : IsIndexed core
  pub settled : settle core.migration_state ≡ core.migration_state

module _ (checks : Bool) (core c : GroupEngineCore) (p : Plugged) (sim : Sim core p c) where
  view_unplugged : (q : Plugged) → q.write_states ≡ no_states → SameView core c (merge p q) q
  unfolding must_migration_state
  view_unplugged q e = record {
    desc = ground (arith, sim.desc);
    state = λ s h. ground (arith, sim.state);
  }

  push_batch_states : (batch : Option Bytes) → (push_batch batch unplugged).write_states ≡ no_states
  unfolding push_batch
  push_batch_states none = refl
  push_batch_states (some b) = refl

  merge-push_batch :
      (batch : Option Bytes)
      → merge p (push_batch batch unplugged) ≡ push_batch batch (merge p unplugged)
  unfolding push_batch
  merge-push_batch none = refl
  merge-push_batch (some b) = ground (arith, append-nil p.write_batches)

  merge-unplugged : merge p unplugged ≡ p
  merge-unplugged = ground (arith, append-nil p.write_batches)

  apply_entry-merge :
      (entry : ApplyEntry) (r : Plugged)
      → apply_entry checks c entry unplugged ≡ ok r
      → apply_entry checks core entry p ≡ ok (merge p r)
  unfolding apply_entry apply_proposal
  apply_entry-merge empty r h = ground (arith, merge-unplugged)
  apply_entry-merge (config_change change) r h =
      let v = view_unplugged unplugged refl in
      subst (λ x. apply_change_replicas checks core change x ≡ ok (merge p r)) merge-unplugged
        (change_replicas-merge checks core c p unplugged v.desc v.state change r h)
  apply_entry-merge (proposal result) r h =
      let q = push_batch result.batch unplugged in
      let merged =
        apply_op-merge checks core c result.op p q r
          (view_unplugged q (push_batch_states result.batch)) h in
      subst (λ x. apply_op checks core result.op x ≡ ok (merge p r))
        (merge-push_batch result.batch ∙ ap (push_batch result.batch) merge-unplugged) merged

  pub apply_at-merge :
      (index term : ℕ) (entry : ApplyEntry) (r : Plugged)
      → apply_at checks c index term entry unplugged ≡ ok r
      → apply_at checks core index term entry p ≡ ok (merge p r)
  unfolding apply_at
  apply_at-merge index term entry r h =
      let i = ok_parts (apply_entry checks c entry unplugged) _ h in
      rw (apply_entry-merge entry i.0 i.1) (ground (arith, i.2))

  pub Sim-commit :
      (q : Plugged) (c' : GroupEngineCore)
      → commit_core q.write_states c ≡ ok c'
      → Sim core (merge p q) c'
  Sim-commit q c' h =
      let cm = commit_core_lem q.write_states c c' sim.indexed h in
      record {
        desc = ground (arith, cm.desc, sim.desc);
        state = elim (Option-cases q.write_states.migration_state) [
          | inl e ↦ ground (arith, e, cm.kept e, sim.state)
          | inr (s, e) ↦ ground (arith, e, cm.set s e)
        ];
        indexed = cm.indexed;
      }
