-- ===== src/ConfigChange/Examples.antt =====
-- Runs of the configuration changes, and the theorems about them at a group of four replicas.
use engula.ConfigChange.ConfState.{
  conf_state_from_group_descriptor, conf_state_lem, conf_state_misses_outgoing, contains,
}
use engula.ConfigChange.Enter.{IsBatch, Joined, apply_enter_joint_lem, change_at, is_settled}
use engula.ConfigChange.Leave.{
  final_role, is_incoming_voter, is_outgoing_voter, is_voter, joint_change, joint_voters,
}
use engula.ConfigChange.Roles.{AllKnown, UniqueIds, role_at}
use engula.ConfigChange.Simple.{apply_simple_change_lem, joint-eq-simple, simple_changes}
use engula.Meta.{
  ChangeReplica, ChangeReplicaType, GroupDesc, ReplicaDesc, ReplicaRole, add, add_learner,
  demoting_voter, incoming_voter, learner, remove, voter,
}
use engula.Prelude.{
  List, [], arith, false, if◌then◌else◌, in_joint_state, ok, panic, refl, some, true, ℕ, ◌+◌, ◌==◌,
  ◌∷◌, ◌≡◌,
}
use engula.ConfigChange.{apply_enter_joint, apply_leave_joint, apply_simple_change}

abbrev replica : ℕ → ReplicaRole → ReplicaDesc
replica id role = record { id = id; node_id = id + 100; role = some role }

abbrev change : ChangeReplicaType → ℕ → ChangeReplica
change t id = record { change_type = some t; replica_id = id; node_id = id + 100 }

-- Three voters and a learner.
abbrev group : GroupDesc
group = record {
  id = 7;
  epoch = 5;
  shards = [];
  replicas = replica 1 voter ∷ replica 2 voter ∷ replica 3 voter ∷ replica 4 learner ∷ [];
}

-- The learner takes the place of a voter.
abbrev swap : List ChangeReplica
swap = change add 4 ∷ change add_learner 3 ∷ change remove 9 ∷ []

swap-IsBatch : IsBatch swap
swap-IsBatch = ground arith

group_settled : (j : ℕ) → is_settled (role_at group.replicas j) ≡ true
group_settled j = ground arith

enter_swap :
    apply_enter_joint group swap
    ≡ ok (record group {
      replicas =
          replica 1 voter
          ∷ replica 2 voter
          ∷ replica 3 demoting_voter
          ∷ replica 4 incoming_voter
          ∷ [];
    })
unfolding apply_enter_joint
enter_swap = refl

-- The same replica twice in one change ends in a panic.
enter_twice : apply_enter_joint group (change add 4 ∷ change add 4 ∷ []) ≡ panic in_joint_state
unfolding apply_enter_joint
enter_twice = refl

apply_enter_joint_example :
    (desc' : GroupDesc) × (apply_enter_joint group swap ≡ ok desc') × Joined swap group desc'
apply_enter_joint_example =
    apply_enter_joint_lem group swap swap-IsBatch (ground arith) (ground arith) (ground arith)

joint_voters_example :
    (desc' : GroupDesc) × (apply_enter_joint group swap ≡ ok desc')
    × ((j : ℕ) → is_outgoing_voter (role_at desc'.replicas j) ≡ is_voter (role_at group.replicas j))
    × ((j : ℕ)
        → is_incoming_voter (role_at desc'.replicas j)
          ≡ is_voter (role_at (apply_leave_joint desc').replicas j))
joint_voters_example =
    joint_voters group swap swap-IsBatch (ground arith) (ground arith) group_settled

joint_change_example :
    (desc' : GroupDesc) × (apply_enter_joint group swap ≡ ok desc')
    × ((j : ℕ)
        → role_at (apply_leave_joint desc').replicas j
          ≡ final_role (role_at group.replicas j) (change_at swap j))
    × UniqueIds (apply_leave_joint desc').replicas
    × AllKnown (apply_leave_joint desc').replicas
joint_change_example =
    joint_change group swap swap-IsBatch (ground arith) (ground arith) group_settled

apply_simple_change_example :
    (desc' : GroupDesc) × (apply_simple_change group (change add 4) ≡ ok desc')
    × ((j : ℕ)
        → role_at desc'.replicas j ≡ (if 4 == j then some voter else role_at group.replicas j))
    × AllKnown desc'.replicas
    × UniqueIds desc'.replicas
    × (desc'.epoch ≡ 5)
    × (desc'.shards ≡ [])
apply_simple_change_example =
    apply_simple_change_lem group (change add 4) add refl (ground arith) (ground arith) refl

swap_keeps_voters :
    (j : ℕ) → change_at swap j ≡ some remove → is_voter (role_at group.replicas j) ≡ false
swap_keeps_voters j h = ground arith

joint-eq-simple_example :
    (joint : GroupDesc) × (single : GroupDesc) × (apply_enter_joint group swap ≡ ok joint)
    × (simple_changes swap group ≡ ok single)
    × ((j : ℕ) → role_at (apply_leave_joint joint).replicas j ≡ role_at single.replicas j)
joint-eq-simple_example =
    joint-eq-simple group swap swap-IsBatch (ground arith) (ground arith) group_settled
      swap_keeps_voters

conf_state_example :
    let cs = conf_state_from_group_descriptor group in
    (contains 4 cs.voters ≡ false)
    × (contains 4 cs.learners ≡ true)
    × (contains 4 cs.learners_next ≡ false)
    × (contains 4 cs.voters_outgoing ≡ false)
conf_state_example = conf_state_lem group 4 (ground arith) (ground arith)

conf_state_misses_outgoing_example :
    (desc' : GroupDesc) × (apply_enter_joint group swap ≡ ok desc')
    × (is_outgoing_voter (role_at desc'.replicas 1) ≡ true)
    × (contains 1 (conf_state_from_group_descriptor desc').voters_outgoing ≡ false)
conf_state_misses_outgoing_example =
    conf_state_misses_outgoing group swap 1 swap-IsBatch (ground arith) (ground arith) group_settled
      refl refl
