-- ===== src/ConfigChange/Simple.antt =====
-- `apply_simple_change` of src/server/src/node/replica/fsm/mod.rs, and a row of single changes
-- against one joint change.
use engula.ConfigChange.Enter.{IsBatch, change_at, is_settled, type_cases}
use engula.ConfigChange.Leave.{is_voter, joint_change}
use engula.ConfigChange.Roles.{
  AllKnown, AllKnown-append, AllKnown-retain, AllKnown-set_role, UniqueIds, UniqueIds-append,
  UniqueIds-retain, UniqueIds-set_role, role_at, role_at-append, role_at-retain, role_at-set_role,
}
use engula.Error.{Result}
use engula.Meta.{
  ChangeReplica, ChangeReplicaType, GroupDesc, ReplicaDesc, ReplicaRole, add, add_learner, learner,
  remove, voter,
}
use engula.Prelude.{
  List, Option, [], arith, false, if◌then◌else◌, is_some, none, not, ok, refl, retain, some, true,
  ℕ, ◌==◌, ◌>>=◌, ◌∷◌, ◌≡◌,
}
use engula.ConfigChange.{
  add_replica, apply_enter_joint, apply_leave_joint, apply_simple_change, find_replica, role_of,
  simple_change,
}

-- The role that a single change gives its replica.
abbrev pub simple_role : ChangeReplicaType → Option ReplicaRole
simple_role add = some voter
simple_role add_learner = some learner
simple_role remove = none

record Changed (id : ℕ) (t : ChangeReplicaType) (rs rs' : List ReplicaDesc) : Type 0 where
  roles : (j : ℕ) → role_at rs' j ≡ (if id == j then simple_role t else role_at rs j)
  known : AllKnown rs'
  unique : UniqueIds rs'

is_some_of_role : (o : Option ReplicaDesc) → is_some (role_of o) ≡ true → is_some o ≡ true
is_some_of_role none h = cc
is_some_of_role (some r) h = refl

module _ (c : ChangeReplica) (rs : List ReplicaDesc) (k : AllKnown rs) (u : UniqueIds rs) where
  add_replica_lem :
      (o : Option ReplicaDesc) (t : ChangeReplicaType) (role : ReplicaRole)
      → find_replica c.replica_id rs ≡ o
      → simple_role t ≡ some role
      → Changed c.replica_id t rs (add_replica o c role rs)
  unfolding add_replica
  add_replica_lem none t role h e =
      let x : ReplicaDesc = record { id = c.replica_id; node_id = c.node_id; role = some role } in
      record {
        roles = λ j. ground (arith, role_at-append rs x j);
        known = AllKnown-append rs x k refl;
        unique = UniqueIds-append rs x u h;
      }
  add_replica_lem (some r) t role h e = record {
    roles = λ j. ground (arith, role_at-set_role c.replica_id role rs j);
    known = AllKnown-set_role c.replica_id role rs k;
    unique = UniqueIds-set_role c.replica_id role rs u;
  }

  simple_change_lem :
      (t : ChangeReplicaType)
      → (rs' : List ReplicaDesc) × (simple_change (some t) c rs ≡ ok rs')
        × Changed c.replica_id t rs rs'
  unfolding simple_change
  simple_change_lem add = (
    add_replica (find_replica c.replica_id rs) c voter rs,
    refl,
    add_replica_lem (find_replica c.replica_id rs) add voter refl refl,
  )
  simple_change_lem add_learner = (
    add_replica (find_replica c.replica_id rs) c learner rs,
    refl,
    add_replica_lem (find_replica c.replica_id rs) add_learner learner refl refl,
  )
  simple_change_lem remove = (
    retain (λ r. not (r.id == c.replica_id)) rs,
    refl,
    record {
      roles = λ j. ground (arith, role_at-retain (λ i. not (i == c.replica_id)) rs j);
      known = AllKnown-retain (λ r. not (r.id == c.replica_id)) rs k;
      unique = UniqueIds-retain (λ r. not (r.id == c.replica_id)) rs u;
    },
  )

-- A single change of a known type to a replica that is not in a joint state is accepted: that
-- replica becomes a voter, a learner, or is gone, every other one keeps its role, ids stay unique,
-- and shards and epoch stay as they were.
pub apply_simple_change_lem :
    (desc : GroupDesc) (c : ChangeReplica) (t : ChangeReplicaType)
    → c.change_type ≡ some t
    → AllKnown desc.replicas
    → UniqueIds desc.replicas
    → is_settled (role_at desc.replicas c.replica_id) ≡ true
    → (desc' : GroupDesc) × (apply_simple_change desc c ≡ ok desc')
      × ((j : ℕ)
          → role_at desc'.replicas j
            ≡ (if c.replica_id == j then simple_role t else role_at desc.replicas j))
      × AllKnown desc'.replicas
      × UniqueIds desc'.replicas
      × (desc'.epoch ≡ desc.epoch)
      × (desc'.shards ≡ desc.shards)
unfolding apply_simple_change
apply_simple_change_lem desc c t e k u h =
    let ch = simple_change_lem c desc.replicas k u t in
    (
      record desc { replicas = ch.0 },
      rw e (ground (arith, ch.1)),
      ch.2.roles,
      ch.2.known,
      ch.2.unique,
      refl,
      refl,
    )

-- A row of entries with one change each.
pub simple_changes : List ChangeReplica → GroupDesc → Result GroupDesc
simple_changes [] desc = ok desc
simple_changes (c ∷ cs) desc = apply_simple_change desc c >>= simple_changes cs

abbrev simple_at : Option ReplicaRole → Option ChangeReplicaType → Option ReplicaRole
simple_at old none = old
simple_at old (some t) = simple_role t

simple_changes_lem :
    (cs : List ChangeReplica) (desc : GroupDesc)
    → IsBatch cs
    → AllKnown desc.replicas
    → UniqueIds desc.replicas
    → ((j : ℕ) → is_settled (role_at desc.replicas j) ≡ true)
    → (desc' : GroupDesc) × (simple_changes cs desc ≡ ok desc')
      × ((j : ℕ) → role_at desc'.replicas j ≡ simple_at (role_at desc.replicas j) (change_at cs j))
unfolding simple_changes
simple_changes_lem [] desc b k u a = (desc, refl, λ j. ground arith)
simple_changes_lem (c ∷ cs) desc b k u a =
    let ty = type_cases c.change_type b.1 in
    let st = apply_simple_change_lem desc c ty.0 ty.1 k u (a c.replica_id) in
    let rest = simple_changes_lem cs st.0 b.2 st.3 st.4 (λ j. ground (arith, st.2 j, a j)) in
    (rest.0, rw st.1 rest.1, λ j. ground (arith, st.2 j, rest.2 j, ty.1, b.0))

-- One joint change against a row of single ones. Where the batch removes no voter, entering and
-- leaving the joint state gives every replica the role that the single changes give it, applied
-- one by one.
pub joint-eq-simple :
    (desc : GroupDesc) (cs : List ChangeReplica)
    → IsBatch cs
    → AllKnown desc.replicas
    → UniqueIds desc.replicas
    → ((j : ℕ) → is_settled (role_at desc.replicas j) ≡ true)
    → ((j : ℕ) → change_at cs j ≡ some remove → is_voter (role_at desc.replicas j) ≡ false)
    → (joint : GroupDesc) × (single : GroupDesc) × (apply_enter_joint desc cs ≡ ok joint)
      × (simple_changes cs desc ≡ ok single)
      × ((j : ℕ) → role_at (apply_leave_joint joint).replicas j ≡ role_at single.replicas j)
joint-eq-simple desc cs b k u a h =
    let jn = joint_change desc cs b k u a in
    let sn = simple_changes_lem cs desc b k u a in
    (jn.0, sn.0, jn.1, sn.1, λ j. ground (arith, jn.2 j, sn.2 j, a j, h j))
