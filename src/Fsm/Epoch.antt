-- ===== src/Fsm/Epoch.antt =====
-- The epoch of a group descriptor as the version stamp that
-- src/api/engula/server/v1/metadata.proto promises, over src/server/src/node/replica/fsm/mod.rs.
use engula.Fsm.{
  apply_at, push_batch, unplugged, ApplyEntry, Plugged, apply_add_shard, apply_change_replicas,
  apply_entry, apply_migration, apply_migration_op, apply_op, apply_proposal, config_change,
  config_change_delta, descriptor, empty, first_change, migration_event, must_migration_state,
  op_shard, proposal, change_desc,
}
use engula.Meta.{
  Bytes, Migration, MigrationDesc, MigrationEvent, ShardDesc, SyncOp, abort, apply, commit,
  get_migration_desc, ingest, is_step, migrated, setup, ChangeReplicas, GroupDesc,
}
use engula.Prelude.{
  List, refl, sym, ◌∷◌, Option, add_u64, debug_assert, none, some, true, unwrap, ℕ, ◌+◌, ok_parts,
  [], arith, inl, inr, ok, ok-injective, ◌<◌, ◌≡◌, ◌⊎◌,
}
use mathlib.Core.Path.{subst}
use engula.ConfigChange.Epoch.{epoch-apply_enter_joint, epoch-apply_simple_change}
use engula.Engine.{RawDb, GroupEngineCore}
use engula.Error.{Error}
use engula.Engine.Core.{commit_core_lem}
use engula.Fsm.Batching.{IsSettledCore}
use engula.Fsm.Machine.{Entry, GroupStateMachine, run_plug}
use engula.Fsm.Rounds.{at_entry, plug_all, run_plug_parts}
use engula.ConfigChange.{
  kind_of, ChangeReplicaKind, apply_leave_joint, enter_joint, leave_joint, simple,
}

-- The descriptor is as it was, or a later version of it.
abbrev pub IsNewer : GroupDesc → GroupDesc → Type 0
IsNewer d d' = (d' ≡ d) ⊎ (d.epoch < d'.epoch)

IsNewer-trans : (a b c : GroupDesc) → IsNewer a b → IsNewer b c → IsNewer a c
IsNewer-trans a b c (inl e) h = subst (λ x. IsNewer x c) e h
IsNewer-trans a b c (inr l) (inl e) = inr (ground arith)
IsNewer-trans a b c (inr l) (inr k) = inr (ground arith)

epoch-change_desc :
    (k : ChangeReplicaKind) (cc : ChangeReplicas) (d d' : GroupDesc)
    → change_desc k cc d ≡ ok d'
    → d'.epoch ≡ d.epoch
unfolding change_desc apply_leave_joint
epoch-change_desc leave_joint cc d d' h = ground arith
epoch-change_desc enter_joint cc d d' h = epoch-apply_enter_joint d cc.changes d' h
epoch-change_desc simple cc d d' h =
    let i = ok_parts (first_change cc.changes) _ h in epoch-apply_simple_change d i.0 d' i.2

add_u64_exact : (a b s : ℕ) → add_u64 {E = Error} true a b ≡ ok s → s ≡ a + b
add_u64_exact a b s h = ground arith

-- The build with overflow checks: another one wraps at 2 ^ 64.
module _ (core : GroupEngineCore) where
  change_replicas_newer :
      (cc : ChangeReplicas) (p p' : Plugged)
      → apply_change_replicas true core cc p ≡ ok p'
      → (descriptor core p).epoch < (descriptor core p').epoch
  unfolding apply_change_replicas
  change_replicas_newer cc p p' h =
      let i = ok_parts (change_desc (kind_of cc) cc (descriptor core p)) _ h in
      let j = ok_parts (add_u64 true i.0.epoch config_change_delta) _ i.2 in
      let e = epoch-change_desc (kind_of cc) cc (descriptor core p) i.0 i.1 in
      ground (arith, ok-injective j.2, e, add_u64_exact i.0.epoch config_change_delta j.0 j.1)

  add_shard-IsNewer :
      (shard : Option ShardDesc) (d : GroupDesc) (p : Plugged) (r : GroupDesc × Plugged)
      → apply_add_shard true core shard d p ≡ ok r
      → IsNewer d r.0
  unfolding apply_add_shard
  add_shard-IsNewer none d p r h = inl (ground arith)
  add_shard-IsNewer (some shard) d p r h = inr (ground arith)

  pub apply_migration_newer :
      (m : MigrationDesc) (d : GroupDesc) (p : Plugged) (r : GroupDesc × Plugged)
      → apply_migration true core m d p ≡ ok r
      → (d.epoch < r.0.epoch) × (m.src_group_epoch < r.0.epoch) × (m.dest_group_epoch < r.0.epoch)
  unfolding apply_migration
  apply_migration_newer m d p r h = ground arith

  migration_event-IsNewer :
      (event : MigrationEvent) (m : Migration) (d : GroupDesc) (p : Plugged)
      (r : GroupDesc × Plugged)
      → migration_event true core event m d p ≡ ok r
      → IsNewer d r.0
  unfolding migration_event
  migration_event-IsNewer setup m d p r h = inl (ground arith)
  migration_event-IsNewer ingest m d p r h =
      let i = ok_parts (must_migration_state core p) _ h in inl (ground (arith, i.2))
  migration_event-IsNewer commit m d p r h =
      let i = ok_parts (must_migration_state core p) _ h in inl (ground (arith, i.2))
  migration_event-IsNewer abort m d p r h =
      let i = ok_parts (must_migration_state core p) _ h in inl (ground (arith, i.2))
  migration_event-IsNewer apply m d p r h =
      let i1 = ok_parts (must_migration_state core p) _ h in
      let i2 = ok_parts (debug_assert true (is_step migrated i1.0.step)) _ i1.2 in
      let i3 = ok_parts (get_migration_desc i1.0) _ i2.2 in
      let i4 = ok_parts (apply_migration true core i3.0 d p) _ i3.2 in
      let n = apply_migration_newer i3.0 d p i4.0 i4.1 in
      inr (ground (arith, n.0, ok-injective i4.2))

  migration_op-IsNewer :
      (m : Option Migration) (d : GroupDesc) (p : Plugged) (r : GroupDesc × Plugged)
      → apply_migration_op true core m d p ≡ ok r
      → IsNewer d r.0
  unfolding apply_migration_op
  migration_op-IsNewer none d p r h = inl (ground arith)
  migration_op-IsNewer (some m) d p r h =
      let i = ok_parts (unwrap m.event) _ h in migration_event-IsNewer i.0 m d p r i.2

  apply_op-IsNewer :
      (op : Option SyncOp) (p p' : Plugged)
      → apply_op true core op p ≡ ok p'
      → IsNewer (descriptor core p) (descriptor core p')
  unfolding apply_op
  apply_op-IsNewer none p p' h = inl (ground arith)
  apply_op-IsNewer (some op) p p' h =
      let d = descriptor core p in
      let i = ok_parts (apply_add_shard true core (op_shard op.add_shard) d p) _ h in
      let j = ok_parts (apply_migration_op true core op.migration i.0.0 i.0.1) _ i.2 in
      let n1 = add_shard-IsNewer (op_shard op.add_shard) d p i.0 i.1 in
      let n2 = migration_op-IsNewer op.migration i.0.0 i.0.1 j.0 j.1 in
      subst (λ x. IsNewer d x) (ground (arith, ok-injective j.2))
        (IsNewer-trans d i.0.0 j.0.0 n1 n2)

  push_batch_desc :
      (b : Option Bytes) (p : Plugged) → descriptor core (push_batch b p) ≡ descriptor core p
  unfolding push_batch
  push_batch_desc none p = refl
  push_batch_desc (some b) p = refl

  apply_entry-IsNewer :
      (entry : ApplyEntry) (p p' : Plugged)
      → apply_entry true core entry p ≡ ok p'
      → IsNewer (descriptor core p) (descriptor core p')
  unfolding apply_entry apply_proposal
  apply_entry-IsNewer empty p p' h = inl (ground arith)
  apply_entry-IsNewer (config_change change) p p' h = inr (change_replicas_newer change p p' h)
  apply_entry-IsNewer (proposal result) p p' h =
      subst (λ x. IsNewer x (descriptor core p')) (push_batch_desc result.batch p)
        (apply_op-IsNewer result.op (push_batch result.batch p) p' h)

  apply_at-IsNewer :
      (index term : ℕ) (entry : ApplyEntry) (p p' : Plugged)
      → apply_at true core index term entry p ≡ ok p'
      → IsNewer (descriptor core p) (descriptor core p')
  unfolding apply_at
  apply_at-IsNewer index term entry p p' h =
      let i = ok_parts (apply_entry true core entry p) _ h in
      subst (λ x. IsNewer (descriptor core p) x) (ground (arith, ok-injective i.2))
        (apply_entry-IsNewer entry p i.0 i.1)

  plug_all-IsNewer :
      (es : List Entry) (p p' : Plugged)
      → plug_all true core es p ≡ ok p'
      → IsNewer (descriptor core p) (descriptor core p')
  unfolding plug_all
  plug_all-IsNewer [] p p' h = inl (ground (arith, ok-injective h))
  plug_all-IsNewer (e ∷ es) p p' h =
      let i = ok_parts (at_entry true core e p) _ h in
      IsNewer-trans (descriptor core p) (descriptor core i.0) (descriptor core p')
        (apply_at-IsNewer e.index e.term e.entry p i.0 i.1) (plug_all-IsNewer es i.0 p' i.2)

-- The epoch is a version stamp: in a build with overflow checks, whatever entries a round applies,
-- the engine's descriptor afterwards is the one from before or has a greater epoch.
pub run_plug-IsNewer :
    (db : RawDb) (es : List Entry) (m m' : GroupStateMachine db)
    → m.plugged ≡ unplugged
    → IsSettledCore m.engine.core
    → run_plug db true es m ≡ ok m'
    → IsNewer m.engine.core.group_desc m'.engine.core.group_desc
run_plug-IsNewer db es m m' idle s h =
    let parts = run_plug_parts db true es m m' idle h in
    let cm = commit_core_lem parts.0.write_states m.engine.core m'.engine.core s.indexed parts.2 in
    subst (λ x. IsNewer m.engine.core.group_desc x) (sym cm.desc)
      (plug_all-IsNewer m.engine.core es unplugged parts.0 parts.1)
