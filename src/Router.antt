-- ===== src/Router.antt =====
-- src/client/src/router.rs: the tables from which a client finds the group of a shard, kept from the
-- events that the root server sends. The state is behind a lock; the task that waits for events, and
-- the hash of a key, are another crate's.
pub mod Find
pub mod Shards
pub mod Owners
pub mod Ownership
pub mod Names
pub mod Leaders
mod Examples
use Prim.Native.String.{String}
use text.Mathlib.Text.{◌==◌ as str_eq}
use engula.HashMap
use engula.Meta.{
  CollectionDesc, DatabaseDesc, DeleteEvent, GroupState, UpdateEvent, delete_collection,
  delete_database, delete_group, delete_group_state, delete_node, update_collection,
  update_database, update_group, update_group_state, update_node, GroupDesc, NodeDesc, ReplicaDesc,
  ReplicaState, ShardDesc, is_leader, leader,
}
use engula.Prelude.{
  and_then, List, Option, [], if◌then◌else◌, ltb, none, not, retain, some, ℕ, ◌++◌, ◌==◌, ◌∷◌,
}
use engula.RaftLog.Storage.Reads.{term}
use engula.HashMap.{Map, nat_key, string_key, pair_key}

pub record RouterGroupState : Type 0 where
  pub id : ℕ
  pub epoch : ℕ
  pub leader_state : Option (ℕ × ℕ)
  pub replicas : Map ℕ ReplicaDesc

pub record State : Type 0 where
  pub node_id_lookup : Map ℕ String
  pub db_id_lookup : Map ℕ DatabaseDesc
  pub db_name_lookup : Map String ℕ
  pub co_id_lookup : Map ℕ CollectionDesc
  pub co_name_lookup : Map (ℕ × String) ℕ
  pub co_shards_lookup : Map ℕ (List ShardDesc)
  pub shard_group_lookup : Map ℕ (ℕ × ℕ)
  pub group_id_lookup : Map ℕ RouterGroupState
  pub cached_group_states : Map ℕ GroupState

-- `State::default`
abbrev pub empty_state : State
empty_state = record {
  node_id_lookup = [];
  db_id_lookup = [];
  db_name_lookup = [];
  co_id_lookup = [];
  co_name_lookup = [];
  co_shards_lookup = [];
  shard_group_lookup = [];
  group_id_lookup = [];
  cached_group_states = [];
}

-- The errors that the router makes.
pub data ClientError : Type 0 where
  not_found : ClientError

-- The leaders among the replicas, by id and term.
leaders : List ReplicaState → List (ℕ × ℕ)
leaders [] = []
leaders (r ∷ rs) =
    let rest = leaders rs in if is_leader r.role then (r.replica_id, r.term) ∷ rest else rest

-- `sort_by_key` and `pop`: the last one of the greatest term, since the sort is stable.
greatest_of : ℕ × ℕ → Option (ℕ × ℕ) → Option (ℕ × ℕ)
greatest_of choice none = some choice
greatest_of choice (some best) = if ltb best.1 choice.1 then some choice else some best

last_greatest : List (ℕ × ℕ) → Option (ℕ × ℕ)
unfolding greatest_of
last_greatest [] = none
last_greatest (choice ∷ rest) = greatest_of choice (last_greatest rest)

unfoldable pub leader_state : GroupState → Option (ℕ × ℕ)
unfolding leaders last_greatest
leader_state s = elim s.leader_id [ none ↦ none | some _ ↦ last_greatest (leaders s.replicas) ]

-- `State::find_group_by_shard`: a group that is newer than what is known of the shard has lost it.
unfoldable pub find_group_by_shard : ℕ → State → Option RouterGroupState
find_group_by_shard shard_id s = and_then (HashMap.get shard_id s.shard_group_lookup) λ at.
    and_then (HashMap.get at.0 s.group_id_lookup)
      λ group. if ltb at.1 group.epoch then none else some group

-- A shard's group is replaced by one of a greater epoch.
unfoldable pub owner_after : ℕ → ℕ → Option (ℕ × ℕ) → ℕ × ℕ
owner_after id epoch none = (id, epoch)
owner_after id epoch (some at) = if ltb at.1 epoch then (id, epoch) else at

shards_after : ShardDesc → Option (List ShardDesc) → List ShardDesc
shards_after shard none = shard ∷ []
shards_after shard (some shards) = retain (λ s. not (s.id == shard.id)) shards ++ shard ∷ []

-- The body of the loop over the shards of a descriptor.
pub apply_shard : ℕ → ℕ → ShardDesc → State → State
unfolding owner_after shards_after
apply_shard id epoch shard s = record s {
  shard_group_lookup =
      HashMap.insert shard.id (owner_after id epoch (HashMap.get shard.id s.shard_group_lookup))
        s.shard_group_lookup;
  co_shards_lookup =
      HashMap.insert shard.collection_id
        (shards_after shard (HashMap.get shard.collection_id s.co_shards_lookup))
        s.co_shards_lookup;
}

pub apply_shards : ℕ → ℕ → List ShardDesc → State → State
unfolding apply_shard
apply_shards id epoch [] s = s
apply_shards id epoch (shard ∷ shards) s =
    apply_shards id epoch shards (apply_shard id epoch shard s)

replica_map : List ReplicaDesc → Map ℕ ReplicaDesc → Map ℕ ReplicaDesc
replica_map [] m = m
replica_map (r ∷ rs) m = replica_map rs (HashMap.insert r.id r m)

-- The leader that the state knew of the group, or that came before its descriptor.
known_leader : ℕ → State → Option (ℕ × ℕ) × State
known_leader id s = elim (HashMap.get id s.group_id_lookup) [
  | some old ↦ (old.leader_state, s)
  | none ↦ elim (HashMap.get id s.cached_group_states) [
    | none ↦ (none, s)
    | some cached ↦ (
      leader_state cached,
      record s { cached_group_states = HashMap.remove id s.cached_group_states },
    )
  ]
]

-- The group itself, before its shards.
pub insert_group : GroupDesc → State → State
unfolding replica_map known_leader
insert_group desc s =
    let known = known_leader desc.id s in
    record (known.1) {
      group_id_lookup =
          HashMap.insert desc.id
            (record {
              id = desc.id;
              epoch = desc.epoch;
              leader_state = known.0;
              replicas = replica_map desc.replicas [];
            })
            known.1.group_id_lookup;
    }

unfoldable pub apply_group_descriptor : GroupDesc → State → State
unfolding insert_group apply_shards
apply_group_descriptor desc s = apply_shards desc.id desc.epoch desc.shards (insert_group desc s)

-- `apply_update_event` for a group's state: kept for later when the group is not yet known.
pub apply_group_state : GroupState → State → State
unfolding leader_state
apply_group_state group_state s = elim (HashMap.get group_state.group_id s.group_id_lookup) [
  | some group ↦ record s {
    group_id_lookup =
        HashMap.insert group_state.group_id
          (record group { leader_state = leader_state group_state }) s.group_id_lookup;
  }
  | none ↦ record s {
    cached_group_states = HashMap.insert group_state.group_id group_state s.cached_group_states;
  }
]

-- The name table after a database's new descriptor: the entry removed is the new name's.
renamed_database : String → Option DatabaseDesc → Map String ℕ → Map String ℕ
renamed_database name none m = m
renamed_database name (some old_desc) m =
    if not (str_eq old_desc.name name) then HashMap.remove name m else m

pub apply_database : DatabaseDesc → State → State
unfolding renamed_database
apply_database desc s = record s {
  db_id_lookup = HashMap.insert desc.id desc s.db_id_lookup;
  db_name_lookup =
      HashMap.insert desc.name desc.id
        (renamed_database desc.name (HashMap.get desc.id s.db_id_lookup) s.db_name_lookup);
}

renamed_collection : ℕ → String → Option CollectionDesc → Map (ℕ × String) ℕ → Map (ℕ × String) ℕ
renamed_collection db name none m = m
renamed_collection db name (some old_desc) m =
    if not (str_eq old_desc.name name) then HashMap.remove (db, old_desc.name) m else m

pub apply_collection : CollectionDesc → State → State
unfolding renamed_collection
apply_collection desc s = record s {
  co_id_lookup = HashMap.insert desc.id desc s.co_id_lookup;
  co_name_lookup =
      HashMap.insert (desc.db, desc.name) desc.id
        (renamed_collection desc.db desc.name (HashMap.get desc.id s.co_id_lookup)
          s.co_name_lookup);
}

unfoldable pub apply_update_event : UpdateEvent → State → State
unfolding apply_group_descriptor apply_group_state apply_database apply_collection
apply_update_event (update_node desc) s = record s {
  node_id_lookup = HashMap.insert desc.id desc.addr s.node_id_lookup;
}
apply_update_event (update_group desc) s = apply_group_descriptor desc s
apply_update_event (update_group_state group_state) s = apply_group_state group_state s
apply_update_event (update_database desc) s = apply_database desc s
apply_update_event (update_collection desc) s = apply_collection desc s

forget_database : Option DatabaseDesc → Map String ℕ → Map String ℕ
forget_database none m = m
forget_database (some desc) m = HashMap.remove desc.name m

forget_collection : Option CollectionDesc → Map (ℕ × String) ℕ → Map (ℕ × String) ℕ
forget_collection none m = m
forget_collection (some desc) m = HashMap.remove (desc.db, desc.name) m

-- `none` stands for the panic of `todo!()`.
unfoldable pub apply_delete_event : DeleteEvent → State → Option State
unfolding forget_database forget_collection
apply_delete_event (delete_node node) s =
    some (record s { node_id_lookup = HashMap.remove node s.node_id_lookup })
apply_delete_event (delete_group _) s = none
apply_delete_event (delete_group_state _) s = none
apply_delete_event (delete_database db) s = some (record s {
  db_id_lookup = HashMap.remove db s.db_id_lookup;
  db_name_lookup = forget_database (HashMap.get db s.db_id_lookup) s.db_name_lookup;
})
apply_delete_event (delete_collection co) s = some (record s {
  co_id_lookup = HashMap.remove co s.co_id_lookup;
  co_name_lookup = forget_collection (HashMap.get co s.co_id_lookup) s.co_name_lookup;
})

-- `watch_events`, for one response: its updates and then its deletes.
unfoldable pub apply_updates : List UpdateEvent → State → State
unfolding apply_update_event
apply_updates [] s = s
apply_updates (event ∷ events) s = apply_updates events (apply_update_event event s)

unfoldable pub apply_deletes : List DeleteEvent → State → Option State
unfolding apply_delete_event
apply_deletes [] s = some s
apply_deletes (event ∷ events) s = elim (apply_delete_event event s) [
  | none ↦ none
  | some t ↦ apply_deletes events t
]

unfoldable pub watch_event : List UpdateEvent → List DeleteEvent → State → Option State
unfolding apply_updates apply_deletes
watch_event updates deletes s = apply_deletes deletes (apply_updates updates s)
