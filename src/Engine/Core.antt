-- ===== src/Engine/Core.antt =====
-- What a commit leaves in the memory of a group engine (`apply_core_states` of
-- src/server/src/node/engine/group.rs).
use engula.Meta.{Bytes, GroupDesc, MigrationState, state_shard_desc}
use engula.Prelude.{
  err, inl, inr, refl, ◌⊎◌, Bool, List, ap, or_else, ◌∙◌, is_some, ok-injective, ◌||◌, sym,
  ok_parts, Option, arith, if◌then◌else◌, none, ok, some, unwrap_or, ◌≡◌,
}
use mathlib.Core.Path.{subst}
use engula.Error.{rocks_db, Error}
use engula.Engine.{
  written, GroupEngine, RawDb, group_commit, WriteStates, commit_core, GroupEngineCore,
  apply_core_states, index_shards, is_over, set_desc, set_migration,
}

-- A migration that is over is forgotten.
abbrev pub settle : Option MigrationState → Option MigrationState
settle none = none
settle (some s) = if is_over s.step then none else some s

-- The index of shards is the one of the descriptor and the migration.
abbrev pub IsIndexed : GroupEngineCore → Type 0
IsIndexed core = index_shards core.migration_state core ≡ ok core

pub record Committed (d : Option GroupDesc) (m : Option MigrationState)
    (core core' : GroupEngineCore) : Type 0 where
  pub desc : core'.group_desc ≡ unwrap_or d core.group_desc
  pub kept : m ≡ none → core'.migration_state ≡ core.migration_state
  pub set : (s : MigrationState) → m ≡ some s → core'.migration_state ≡ settle (some s)
  pub indexed : IsIndexed core'

index_shards_lem :
    (m : Option MigrationState) (core core' : GroupEngineCore)
    → index_shards m core ≡ ok core'
    → (core'.group_desc ≡ core.group_desc)
      × (core'.migration_state ≡ core.migration_state)
      × (index_shards m core' ≡ ok core')
unfolding index_shards
index_shards_lem none core core' h = ground arith
index_shards_lem (some s) core core' h =
    let i = ok_parts (state_shard_desc s) _ h in
    (ground (arith, i.2), ground (arith, i.2), rw i.1 (ground (arith, i.2)))

pub apply_core_states_lem :
    (d : Option GroupDesc) (m : Option MigrationState) (core core' : GroupEngineCore)
    → apply_core_states d m core ≡ ok core'
    → Committed d m core core'
unfolding apply_core_states
apply_core_states_lem d m core core' h =
    let c1 = set_migration m (set_desc d core) in
    let i = index_shards_lem c1.migration_state c1 core' h in
    record {
      desc = ground arith;
      kept = ground arith;
      set = ground arith;
      indexed = subst (λ st. index_shards st core' ≡ ok core') (sym i.1) i.2;
    }

pub commit_core_lem :
    (states : WriteStates) (core core' : GroupEngineCore)
    → IsIndexed core
    → commit_core states core ≡ ok core'
    → Committed states.descriptor states.migration_state core core'
unfolding commit_core
commit_core_lem states core core' ix h = go states.descriptor states.migration_state h
  where
    go :
        (d : Option GroupDesc) (m : Option MigrationState)
        → (if is_some d || is_some m then apply_core_states d m core else ok core) ≡ ok core'
        → Committed d m core core'
    go none none e = record {
      desc = ground arith;
      kept = λ _. ground arith;
      set = λ s p. cc;
      indexed = subst IsIndexed (ok-injective e) ix;
    }
    go none (some m) e = apply_core_states_lem none (some m) core core' e
    go (some d) m e = apply_core_states_lem (some d) m core core' e

-- The index is computed from the descriptor and the migration alone.
index_shards-cong :
    (m : Option MigrationState) (a b : GroupEngineCore)
    → a.group_desc ≡ b.group_desc
    → a.migration_state ≡ b.migration_state
    → index_shards m a ≡ index_shards m b
unfolding index_shards
index_shards-cong none a b d e = ground arith
index_shards-cong (some s) a b d e = ground arith

IsIndexed-eq :
    (a b : GroupEngineCore)
    → a.group_desc ≡ b.group_desc
    → a.migration_state ≡ b.migration_state
    → IsIndexed a
    → IsIndexed b
    → a ≡ b
IsIndexed-eq a b d e ia ib =
    ok-injective {E = Error} (cc (ia, ib, e, index_shards-cong b.migration_state a b d e))

-- A commit is determined by the descriptor and the migration that it is to reach.
pub commit_core-eq :
    (states : WriteStates) (core c : GroupEngineCore)
    → unwrap_or states.descriptor core.group_desc ≡ c.group_desc
    → settle (or_else states.migration_state core.migration_state) ≡ c.migration_state
    → IsIndexed c
    → IsIndexed core
    → settle core.migration_state ≡ core.migration_state
    → commit_core states core ≡ ok c
unfolding commit_core apply_core_states
commit_core-eq states core c hd hm ic ix hs = go states.descriptor states.migration_state hd hm
  where
    by_index :
        (d : Option GroupDesc) (m : Option MigrationState)
        → (set_migration m (set_desc d core)).group_desc ≡ c.group_desc
        → (set_migration m (set_desc d core)).migration_state ≡ c.migration_state
        → apply_core_states d m core ≡ ok c
    by_index d m e f =
        let x = set_migration m (set_desc d core) in
        cc (index_shards-cong c.migration_state x c e f, f, ic)

    go :
        (d : Option GroupDesc) (m : Option MigrationState)
        → unwrap_or d core.group_desc ≡ c.group_desc
        → settle (or_else m core.migration_state) ≡ c.migration_state
        → (if is_some d || is_some m then apply_core_states d m core else ok core) ≡ ok c
    go none none e f = ap ok (IsIndexed-eq core c e (sym hs ∙ f) ix ic)
    go none (some m) e f = by_index none (some m) (ground arith) (ground arith)
    go (some d) none e f = by_index (some d) none e (sym hs ∙ f)
    go (some d) (some m) e f = by_index (some d) (some m) (ground arith) (ground arith)

pub commit_core-group_commit :
    (db : RawDb) (wbs : List Bytes) (states : WriteStates) (persisted : Bool)
    (e e' : GroupEngine db)
    → group_commit db wbs states persisted e ≡ ok e'
    → commit_core states e.core ≡ ok e'.core
unfolding group_commit
commit_core-group_commit db wbs states persisted e e' h = go _ h
  where
    go :
        (o : Option db.Store)
        → written db o states e ≡ ok e'
        → commit_core states e.core ≡ ok e'.core
    go none k = cc
    go (some store) k =
        let i = ok_parts (commit_core states e.core) _ k in i.1 ∙ ground (arith, ok-injective i.2)

-- A commit whose states are fine fails only by the database.
pub group_commit_cases :
    (db : RawDb) (wbs : List Bytes) (states : WriteStates) (persisted : Bool) (e : GroupEngine db)
    (c : GroupEngineCore)
    → commit_core states e.core ≡ ok c
    → (group_commit db wbs states persisted e ≡ err rocks_db)
      ⊎ ((e' : GroupEngine db) × (group_commit db wbs states persisted e ≡ ok e') × (e'.core ≡ c))
unfolding group_commit
group_commit_cases db wbs states persisted e c h = go _
  where
    go :
        (o : Option db.Store)
        → (written db o states e ≡ err rocks_db)
          ⊎ ((e' : GroupEngine db) × (written db o states e ≡ ok e') × (e'.core ≡ c))
    go none = inl refl
    go (some store) = inr (record { store = store; core = c }, rw h, refl)
