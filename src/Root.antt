-- ===== src/Root.antt =====
-- The root server, src/server/src/root: what it makes of the reports of nodes and of the answers to
-- its heartbeats (mod.rs, heartbeat.rs, and the tables of schema.rs that they write). The tables of
-- groups and of replica states are maps; a failure of the store under them, which ends a call where
-- it stands, is left out. What goes to the heartbeat queue, to the statistics and to the watchers is
-- a list of effects.
pub mod Reports
pub mod Heartbeats
pub mod Watch
pub mod Liveness
mod Examples
use engula.HashMap
use engula.HashMap.{Map, nat_key, pair_key}
use engula.Meta.{
  GroupState, UpdateEvent, update_group, update_group_state, candidate, follower, is_leader, leader,
  pre_candidate, GroupDesc, RaftRole, ReplicaState, ScheduleState,
}
use engula.Prelude.{
  Bool, List, Option, [], and_then, any, false, find, if◌then◌else◌, is_nil, leb, ltb, map, none,
  not, on_option, retain, some, ℕ, ◌&&◌, ◌++◌, ◌==◌, ◌||◌, ◌∷◌,
}

-- The collections `groups` and `replica_states` of the schema.
pub record Tables : Type 0 where
  pub groups : Map ℕ GroupDesc
  pub replica_states : Map (ℕ × ℕ) ReplicaState

pub record GroupUpdates : Type 0 where
  pub group_id : ℕ
  pub group_desc : Option GroupDesc
  pub replica_state : Option ReplicaState
  pub schedule_state : Option ScheduleState

pub record CollectGroupDetailResponse : Type 0 where
  pub replica_states : List ReplicaState
  pub group_descs : List GroupDesc

pub data RootEffect : Type 0 where
  schedule_heartbeat : RootEffect
  update_stats : ScheduleState → RootEffect
  notify_updates : List UpdateEvent → RootEffect

abbrev pub root_group_id : ℕ
root_group_id = 0

-- `get_group` and `get_replica_state`
abbrev pub get_group : ℕ → Tables → Option GroupDesc
get_group id t = HashMap.get id t.groups

abbrev pub get_replica_state : ℕ → ℕ → Tables → Option ReplicaState
get_replica_state group_id replica_id t = HashMap.get (group_id, replica_id) t.replica_states

-- `update_group_replica`
abbrev pub put_group : Option GroupDesc → Tables → Tables
put_group none t = t
put_group (some desc) t = record t { groups = HashMap.insert desc.id desc t.groups }

abbrev pub put_replica_state : Option ReplicaState → Tables → Tables
put_replica_state none t = t
put_replica_state (some state) t = record t {
  replica_states = HashMap.insert (state.group_id, state.replica_id) state t.replica_states;
}

unfoldable pub update_group_replica : Option GroupDesc → Option ReplicaState → Tables → Tables
update_group_replica group replica t = put_replica_state replica (put_group group t)

abbrev role_number : Option RaftRole → ℕ
role_number (some follower) = 0
role_number (some candidate) = 1
role_number (some leader) = 2
role_number (some pre_candidate) = 3
role_number none = 4

-- What is known of a replica is not older than its new state.
unfoldable pub is_known : ReplicaState → ReplicaState → Bool
is_known pre state =
    ltb state.term pre.term
    || ((state.term == pre.term) && (role_number state.role == role_number pre.role))

abbrev is_some_equal : Option ℕ → ℕ → Bool
is_some_equal none id = false
is_some_equal (some leader_id) id = leader_id == id

-- `list_group_state`
unfoldable pub group_state_after : ReplicaState → Option GroupState → GroupState
group_state_after state none = record {
  group_id = state.group_id;
  leader_id = if is_leader state.role then some state.replica_id else none;
  replicas = state ∷ [];
}
group_state_after state (some group) = record group {
  leader_id =
      if is_leader state.role
      then some state.replica_id
      else if is_some_equal group.leader_id state.replica_id
      then none
      else group.leader_id;
  replicas =
      retain (λ desc. not (desc.replica_id == state.replica_id)) group.replicas ++ state ∷ [];
}

group_states_from : Map (ℕ × ℕ) ReplicaState → Map ℕ GroupState → Map ℕ GroupState
unfolding group_state_after
group_states_from [] states = states
group_states_from ((_, state) ∷ rest) states = group_states_from rest (
    HashMap.insert state.group_id (group_state_after state (HashMap.get state.group_id states))
      states)

unfoldable pub list_group_state : Tables → List GroupState
unfolding group_states_from
list_group_state t = map (λ e. e.1) (group_states_from t.replica_states [])

-- The states of the groups that changed, as events.
unfoldable pub changed_states : List ℕ → Tables → List UpdateEvent
unfolding list_group_state
changed_states changed t =
    map update_group_state (retain (λ s. any (λ id. id == s.group_id) changed) (list_group_state t))

-- What one round of the loop in `report` takes of an update.
unfoldable pub fresh_group : GroupUpdates → Tables → Option GroupDesc
fresh_group u t = and_then u.group_desc λ desc.
    on_option (get_group u.group_id t) (some desc)
      λ pre. if leb desc.epoch pre.epoch then none else some desc

unfoldable pub fresh_replica : GroupUpdates → Tables → Option ReplicaState
unfolding is_known
fresh_replica u t = and_then u.replica_state λ state.
    on_option (get_replica_state u.group_id state.replica_id t) (some state)
      λ pre. if is_known pre state then none else some state

abbrev stats_effect : Option ScheduleState → List RootEffect
stats_effect none = []
stats_effect (some s) = update_stats s ∷ []

abbrev heartbeat_effect : Option GroupDesc → List RootEffect
heartbeat_effect none = []
heartbeat_effect (some desc) = if desc.id == root_group_id then schedule_heartbeat ∷ [] else []

abbrev group_event : Option GroupDesc → List UpdateEvent
group_event none = []
group_event (some desc) = update_group desc ∷ []

abbrev changed_group : Option ReplicaState → List ℕ
changed_group none = []
changed_group (some state) = state.group_id ∷ []

-- The tables, the effects, the events and the changed groups, as a call goes on.
pub record Reporting : Type 0 where
  pub tables : Tables
  pub effects : List RootEffect
  pub events : List UpdateEvent
  pub changed : List ℕ

unfoldable pub report_one : GroupUpdates → Reporting → Reporting
unfolding fresh_group fresh_replica update_group_replica
report_one u r =
    let group = fresh_group u r.tables in
    let replica = fresh_replica u r.tables in
    record {
      tables = update_group_replica group replica r.tables;
      effects = r.effects ++ stats_effect u.schedule_state ++ heartbeat_effect group;
      events = r.events ++ group_event group;
      changed = r.changed ++ changed_group replica;
    }

unfoldable pub report_all : List GroupUpdates → Reporting → Reporting
unfolding report_one
report_all [] r = r
report_all (u ∷ us) r = report_all us (report_one u r)

abbrev pub start_reporting : Tables → Reporting
start_reporting t = record { tables = t; effects = []; events = []; changed = [] }

-- `Root::report`
unfoldable pub report : List GroupUpdates → Tables → Tables × List RootEffect
unfolding report_all changed_states
report updates t =
    let r = report_all updates (start_reporting t) in
    (r.tables, r.effects ++ notify_updates (r.events ++ changed_states r.changed r.tables) ∷ [])

-- `handle_group_detail`: the descriptors are compared with the groups that were listed before.
unfoldable pub detail_group : List GroupDesc → GroupDesc → Reporting → Reporting
detail_group listed desc r =
    if on_option (find (λ g. g.id == desc.id) listed) false (λ ex. leb desc.epoch ex.epoch)
    then r
    else record r {
      tables = put_group (some desc) r.tables;
      effects = r.effects ++ heartbeat_effect (some desc);
      events = r.events ++ group_event (some desc);
    }

unfoldable pub detail_groups : List GroupDesc → List GroupDesc → Reporting → Reporting
unfolding detail_group
detail_groups listed [] r = r
detail_groups listed (desc ∷ descs) r = detail_groups listed descs (detail_group listed desc r)

unfoldable pub detail_replica : ReplicaState → Reporting → Reporting
unfolding is_known
detail_replica state r =
    if on_option (get_replica_state state.group_id state.replica_id r.tables) false
      (λ pre. is_known pre state)
    then r
    else record r {
      tables = put_replica_state (some state) r.tables;
      changed = r.changed ++ changed_group (some state);
    }

unfoldable pub detail_replicas : List ReplicaState → Reporting → Reporting
unfolding detail_replica
detail_replicas [] r = r
detail_replicas (state ∷ states) r = detail_replicas states (detail_replica state r)

unfoldable pub handle_group_detail :
    List GroupDesc → CollectGroupDetailResponse → Tables → Tables × List RootEffect
unfolding detail_groups detail_replicas changed_states
handle_group_detail listed resp t =
    let r =
      detail_replicas resp.replica_states
        (detail_groups listed resp.group_descs (start_reporting t)) in
    let events = r.events ++ changed_states r.changed r.tables in
    (r.tables, if is_nil events then r.effects else r.effects ++ notify_updates events ∷ [])
