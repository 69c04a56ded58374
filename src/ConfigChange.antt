-- ===== src/ConfigChange.antt =====
-- src/server/src/node/replica/fsm/mod.rs, the configuration changes of a group: a single change, and
-- the two halves of a joint change. Log lines (and the digests that only they print) are left out.
pub mod Roles
pub mod Enter
pub mod Leave
pub mod Epoch
pub mod Simple
pub mod ConfState
mod Examples
use engula.Prelude.{
  ℕ, Bool, true, false, Option, none, some, List, [], ◌∷◌, ◌++◌, map, find, any, retain, unwrap_or,
  not, ◌==◌, if◌then◌else◌, ok, panic, unwrap, ◌>>=◌, ◌>>◌, in_joint_state, unreachable,
  unsupported,
}
use engula.Meta.{
  ReplicaRole, voter, learner, incoming_voter, demoting_voter, ReplicaDesc, GroupDesc,
  ChangeReplicaType, add, remove, add_learner, ChangeReplica, ChangeReplicas,
}
use engula.Error.{Result}

pub data ChangeReplicaKind : Type 0 where
  simple enter_joint leave_joint : ChangeReplicaKind

-- `ChangeReplicaKind::new`
unfoldable pub kind_of : ChangeReplicas → ChangeReplicaKind
kind_of cc = elim cc.changes [
  | [] ↦ leave_joint
  | c ∷ rest ↦ elim rest [ [] ↦ simple | _ ∷ _ ↦ enter_joint ]
]

abbrev pub find_replica : ℕ → List ReplicaDesc → Option ReplicaDesc
find_replica id rs = find (λ r. r.id == id) rs

-- The write through the reference that `find_replica_mut` returns.
abbrev pub set_role : ℕ → ReplicaRole → List ReplicaDesc → List ReplicaDesc
set_role id role [] = []
set_role id role (r ∷ rs) =
    if r.id == id then (record r { role = some role }) ∷ rs else r ∷ set_role id role rs

abbrev pub is_joint_role : ReplicaRole → Bool
is_joint_role incoming_voter = true
is_joint_role demoting_voter = true
is_joint_role _ = false

-- `exist.and_then(|r| ReplicaRole::from_i32(r.role))`
abbrev pub role_of : Option ReplicaDesc → Option ReplicaRole
role_of none = none
role_of (some r) = r.role

unfoldable pub check_not_in_joint_state : Option ReplicaDesc → Result (Unit {0})
check_not_in_joint_state exist =
    if is_joint_role (unwrap_or (role_of exist) voter) then panic in_joint_state else ok tt

-- Gives the replica its role, or adds it.
add_replica : Option ReplicaDesc → ChangeReplica → ReplicaRole → List ReplicaDesc → List ReplicaDesc
add_replica (some _) change role rs = set_role change.replica_id role rs
add_replica none change role rs =
    rs ++ (record { id = change.replica_id; node_id = change.node_id; role = some role }) ∷ []

simple_change :
    Option ChangeReplicaType → ChangeReplica → List ReplicaDesc → Result (List ReplicaDesc)
unfolding add_replica
simple_change (some add) change rs =
    ok (add_replica (find_replica change.replica_id rs) change voter rs)
simple_change (some add_learner) change rs =
    ok (add_replica (find_replica change.replica_id rs) change learner rs)
simple_change (some remove) change rs = ok (retain (λ r. not (r.id == change.replica_id)) rs)
simple_change none change rs = panic unsupported

unfoldable pub apply_simple_change : GroupDesc → ChangeReplica → Result GroupDesc
unfolding check_not_in_joint_state simple_change
apply_simple_change desc change = do
  check_not_in_joint_state (find_replica change.replica_id desc.replicas)
  rs ← simple_change change.change_type change desc.replicas
  ok (record desc { replicas = rs })

-- The two values that the loop of `apply_enter_joint` changes.
pub record Joining : Type 0 where
  pub replicas : List ReplicaDesc
  pub outgoing_learners : List ℕ

-- The arms of its `match (exist_role, change)`.
joint_arm : Option ReplicaRole → ChangeReplicaType → ChangeReplica → Joining → Result Joining
joint_arm (some learner) add c s =
    ok (record s { replicas = set_role c.replica_id incoming_voter s.replicas })
joint_arm (some voter) add_learner c s =
    ok (record s { replicas = set_role c.replica_id demoting_voter s.replicas })
joint_arm (some voter) remove c s =
    ok (record s { replicas = set_role c.replica_id demoting_voter s.replicas })
joint_arm none add c s = ok (record s {
  replicas =
      s.replicas
      ++ (record { id = c.replica_id; node_id = c.node_id; role = some incoming_voter }) ∷ [];
})
joint_arm none add_learner c s = ok (record s {
  replicas =
      s.replicas ++ (record { id = c.replica_id; node_id = c.node_id; role = some learner }) ∷ [];
})
joint_arm (some learner) remove c s =
    ok (record s { outgoing_learners = c.replica_id ∷ s.outgoing_learners })
joint_arm (some voter) add c s = ok s
joint_arm (some learner) add_learner c s = ok s
joint_arm none remove c s = ok s
joint_arm _ _ c s = panic unreachable

-- The body of the loop.
joint_step : ChangeReplica → Joining → Result Joining
unfolding check_not_in_joint_state joint_arm
joint_step c s = do
  check_not_in_joint_state (find_replica c.replica_id s.replicas)
  change ← unwrap c.change_type
  joint_arm (role_of (find_replica c.replica_id s.replicas)) change c s

joint_loop : List ChangeReplica → Joining → Result Joining
joint_loop [] s = ok s
joint_loop (c ∷ cs) s = joint_step c s >>= joint_loop cs

unfoldable pub apply_enter_joint : GroupDesc → List ChangeReplica → Result GroupDesc
unfolding joint_loop joint_step
apply_enter_joint desc changes = do
  s ← joint_loop changes (record { replicas = desc.replicas; outgoing_learners = [] })
  ok (record desc {
    replicas = retain (λ r. not (any (λ id. id == r.id) s.outgoing_learners)) s.replicas;
  })

abbrev leave_role : Option ReplicaRole → Option ReplicaRole
leave_role (some incoming_voter) = some voter
leave_role (some demoting_voter) = some learner
leave_role r = r

abbrev leave_replica : ReplicaDesc → ReplicaDesc
leave_replica r = record r { role = leave_role r.role }

unfoldable pub apply_leave_joint : GroupDesc → GroupDesc
apply_leave_joint desc = record desc { replicas = map leave_replica desc.replicas }
