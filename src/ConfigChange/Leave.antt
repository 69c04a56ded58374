-- ===== src/ConfigChange/Leave.antt =====
-- `apply_leave_joint` of src/server/src/node/replica/fsm/mod.rs, and the two voter sets of a joint
-- state.
use engula.Prelude.{[], false, none, some, ◌∷◌, ok, arith, true, ℕ, Bool, Option, List, ◌≡◌}
use engula.ConfigChange.Roles.{
  UniqueIds, AllKnown, role_at, role_at-leave, UniqueIds-leave, AllKnown-leave,
}
use engula.ConfigChange.{apply_enter_joint, apply_leave_joint}
use engula.Meta.{
  add, add_learner, demoting_voter, incoming_voter, learner, remove, voter, GroupDesc,
  ChangeReplicaType, ReplicaRole, ReplicaDesc, ChangeReplica,
}
use engula.ConfigChange.Enter.{change_at, AllSettled, is_settled, IsBatch, apply_enter_joint_lem}

-- The voters of the old configuration, of the new one, and those of a settled descriptor.
abbrev pub is_outgoing_voter : Option ReplicaRole → Bool
is_outgoing_voter (some voter) = true
is_outgoing_voter (some demoting_voter) = true
is_outgoing_voter _ = false

abbrev pub is_incoming_voter : Option ReplicaRole → Bool
is_incoming_voter (some voter) = true
is_incoming_voter (some incoming_voter) = true
is_incoming_voter _ = false

abbrev pub is_voter : Option ReplicaRole → Bool
is_voter (some voter) = true
is_voter _ = false

-- Where a replica ends once the joint change is left.
abbrev pub final_role : Option ReplicaRole → Option ChangeReplicaType → Option ReplicaRole
final_role old none = old
final_role old (some add) = some voter
final_role old (some add_learner) = some learner
final_role (some voter) (some remove) = some learner
final_role old (some remove) = none

pub AllSettled-of :
    (cs : List ChangeReplica) (rs : List ReplicaDesc)
    → ((j : ℕ) → is_settled (role_at rs j) ≡ true)
    → AllSettled cs rs
AllSettled-of [] rs a = tt
AllSettled-of (c ∷ cs) rs a = (a c.replica_id, AllSettled-of cs rs a)

-- The voters of a joint state. After `apply_enter_joint` on a settled descriptor the replicas that
-- vote in the outgoing configuration are exactly the voters from before, and those that vote in
-- the incoming one are exactly the voters that remain after `apply_leave_joint`.
pub joint_voters :
    (desc : GroupDesc) (cs : List ChangeReplica)
    → IsBatch cs
    → AllKnown desc.replicas
    → UniqueIds desc.replicas
    → ((j : ℕ) → is_settled (role_at desc.replicas j) ≡ true)
    → (desc' : GroupDesc) × (apply_enter_joint desc cs ≡ ok desc')
      × ((j : ℕ)
          → is_outgoing_voter (role_at desc'.replicas j) ≡ is_voter (role_at desc.replicas j))
      × ((j : ℕ)
          → is_incoming_voter (role_at desc'.replicas j)
            ≡ is_voter (role_at (apply_leave_joint desc').replicas j))
unfolding apply_leave_joint
joint_voters desc cs b k u a =
    let jn = apply_enter_joint_lem desc cs b k u (AllSettled-of cs desc.replicas a) in
    (
      jn.0,
      jn.1,
      (λ j. ground (arith, a j, jn.2.roles j)),
      λ j. ground (arith, a j, jn.2.roles j, role_at-leave jn.0.replicas j),
    )

-- A joint change as a whole. From a settled descriptor, entering and leaving gives each replica
-- that the batch names the role that its change asks for (a removed voter is kept as a learner),
-- and leaves the others alone.
pub joint_change :
    (desc : GroupDesc) (cs : List ChangeReplica)
    → IsBatch cs
    → AllKnown desc.replicas
    → UniqueIds desc.replicas
    → ((j : ℕ) → is_settled (role_at desc.replicas j) ≡ true)
    → (desc' : GroupDesc) × (apply_enter_joint desc cs ≡ ok desc')
      × ((j : ℕ)
          → role_at (apply_leave_joint desc').replicas j
            ≡ final_role (role_at desc.replicas j) (change_at cs j))
      × UniqueIds (apply_leave_joint desc').replicas
      × AllKnown (apply_leave_joint desc').replicas
unfolding apply_leave_joint
joint_change desc cs b k u a =
    let jn = apply_enter_joint_lem desc cs b k u (AllSettled-of cs desc.replicas a) in
    (
      jn.0,
      jn.1,
      (λ j. ground (arith, a j, jn.2.roles j, role_at-leave jn.0.replicas j)),
      UniqueIds-leave jn.0.replicas jn.2.unique,
      AllKnown-leave jn.0.replicas jn.2.known,
    )
