-- ===== src/ConfigChange/Enter.antt =====
-- `apply_enter_joint` of src/server/src/node/replica/fsm/mod.rs against the role that each replica
-- should have after it.
use engula.Prelude.{
  retain, All, ℕ, ◌≡◌, refl, Bool, true, false, ◌&&◌, ◌||◌, Option, none, some, List, [], ◌∷◌, ◌++◌,
  find, any, is_some, not, ◌==◌, if◌then◌else◌, arith, ok,
}
use engula.Meta.{
  GroupDesc, ReplicaRole, voter, learner, incoming_voter, demoting_voter, ReplicaDesc,
  ChangeReplicaType, add, remove, add_learner, ChangeReplica,
}
use engula.ConfigChange.{
  joint_loop, apply_enter_joint, set_role, is_joint_role, check_not_in_joint_state, Joining,
  joint_arm, joint_step,
}
use engula.ConfigChange.Roles.{
  UniqueIds-retain, AllKnown-retain, role_at-retain, role_at, AllKnown, UniqueIds,
  find-none_of_role, role_at-set_role, role_at-append, AllKnown-append, AllKnown-set_role,
  UniqueIds-append, UniqueIds-set_role,
}

abbrev pub find_change : ℕ → List ChangeReplica → Option ChangeReplica
find_change id cs = find (λ c. c.replica_id == id) cs

abbrev type_of : Option ChangeReplica → Option ChangeReplicaType
type_of none = none
type_of (some c) = c.change_type

-- What a joint change asks for under an id, `none` where it says nothing.
abbrev pub change_at : List ChangeReplica → ℕ → Option ChangeReplicaType
change_at cs id = type_of (find_change id cs)

-- No replica is changed twice, and every change is of a known type.
abbrev pub IsBatch : List ChangeReplica → Type 0
IsBatch [] = Unit
IsBatch (c ∷ cs) =
    (find_change c.replica_id cs ≡ none) × (is_some c.change_type ≡ true) × IsBatch cs

abbrev pub is_settled : Option ReplicaRole → Bool
is_settled none = true
is_settled (some r) = not (is_joint_role r)

-- The role in the joint state, by the role before it and the change.
abbrev pub enter_role : Option ReplicaRole → Option ChangeReplicaType → Option ReplicaRole
enter_role old none = old
enter_role none (some add) = some incoming_voter
enter_role none (some add_learner) = some learner
enter_role none (some remove) = none
enter_role (some learner) (some add) = some incoming_voter
enter_role (some learner) (some add_learner) = some learner
enter_role (some learner) (some remove) = none
enter_role (some voter) (some add) = some voter
enter_role (some voter) (some _) = some demoting_voter
enter_role (some r) (some _) = some r

-- Learners that leave are dropped only behind the loop.
abbrev drops : Option ReplicaRole → Option ChangeReplicaType → Bool
drops (some learner) (some remove) = true
drops _ _ = false

abbrev loop_role : Option ReplicaRole → Option ChangeReplicaType → Option ReplicaRole
loop_role old t = if drops old t then old else enter_role old t

abbrev is_out : Joining → ℕ → Bool
is_out s j = any (λ id. id == j) s.outgoing_learners

-- What one round of the loop does to the state.
record Stepped (id : ℕ) (t : ChangeReplicaType) (s s' : Joining) : Type 0 where
  roles :
      (j : ℕ)
      → role_at s'.replicas j
        ≡ (if id == j then loop_role (role_at s.replicas j) (some t) else role_at s.replicas j)
  outs : (j : ℕ) → is_out s' j ≡ (id == j && drops (role_at s.replicas id) (some t) || is_out s j)
  known : AllKnown s'.replicas
  unique : UniqueIds s'.replicas

module _ (c : ChangeReplica) (s : Joining) (k : AllKnown s.replicas)
    (u : UniqueIds s.replicas) where
  abbrev set_to : ReplicaRole → Joining
  set_to role = record s { replicas = set_role c.replica_id role s.replicas }

  abbrev push_as : ReplicaRole → Joining
  push_as role = record s {
    replicas =
        s.replicas ++ (record { id = c.replica_id; node_id = c.node_id; role = some role }) ∷ [];
  }

  abbrev drop_out : Joining
  drop_out = record s { outgoing_learners = c.replica_id ∷ s.outgoing_learners }

  abbrev Arm : Option ReplicaRole → ChangeReplicaType → Type 0
  Arm o t = (s' : Joining) × (joint_arm o t c s ≡ ok s') × Stepped c.replica_id t s s'

  Stepped-set :
      (old role : ReplicaRole) (t : ChangeReplicaType)
      → role_at s.replicas c.replica_id ≡ some old
      → loop_role (some old) (some t) ≡ some role
      → drops (some old) (some t) ≡ false
      → Stepped c.replica_id t s (set_to role)
  Stepped-set old role t h e d = record {
    roles = λ j. ground (arith, role_at-set_role c.replica_id role s.replicas j);
    outs = λ j. ground arith;
    known = AllKnown-set_role c.replica_id role s.replicas k;
    unique = UniqueIds-set_role c.replica_id role s.replicas u;
  }

  Stepped-push :
      (role : ReplicaRole) (t : ChangeReplicaType)
      → role_at s.replicas c.replica_id ≡ none
      → loop_role none (some t) ≡ some role
      → Stepped c.replica_id t s (push_as role)
  Stepped-push role t h e =
      let x : ReplicaDesc = record { id = c.replica_id; node_id = c.node_id; role = some role } in
      let absent = find-none_of_role s.replicas c.replica_id k h in
      record {
        roles = λ j. ground (arith, role_at-append s.replicas x j);
        outs = λ j. ground arith;
        known = AllKnown-append s.replicas x k refl;
        unique = UniqueIds-append s.replicas x u absent;
      }

  Stepped-same :
      (t : ChangeReplicaType)
      → loop_role (role_at s.replicas c.replica_id) (some t) ≡ role_at s.replicas c.replica_id
      → drops (role_at s.replicas c.replica_id) (some t) ≡ false
      → Stepped c.replica_id t s s
  Stepped-same t e d = record {
    roles = λ j. ground arith;
    outs = λ j. ground arith;
    known = k;
    unique = u;
  }

  Stepped-drop :
      role_at s.replicas c.replica_id ≡ some learner → Stepped c.replica_id remove s drop_out
  Stepped-drop e = record {
    roles = λ j. ground arith;
    outs = λ j. ground arith;
    known = k;
    unique = u;
  }

  joint_arm_lem :
      (o : Option ReplicaRole) (t : ChangeReplicaType)
      → role_at s.replicas c.replica_id ≡ o
      → is_settled o ≡ true
      → Arm o t
  unfolding joint_arm
  joint_arm_lem none add h e =
      (push_as incoming_voter, refl, Stepped-push incoming_voter add h refl)
  joint_arm_lem none add_learner h e =
      (push_as learner, refl, Stepped-push learner add_learner h refl)
  joint_arm_lem none remove h e = (s, refl, Stepped-same remove (rw h) (rw h))
  joint_arm_lem (some learner) add h e =
      (set_to incoming_voter, refl, Stepped-set learner incoming_voter add h refl refl)
  joint_arm_lem (some learner) add_learner h e = (s, refl, Stepped-same add_learner (rw h) (rw h))
  joint_arm_lem (some learner) remove h e = (drop_out, refl, Stepped-drop h)
  joint_arm_lem (some voter) add h e = (s, refl, Stepped-same add (rw h) (rw h))
  joint_arm_lem (some voter) add_learner h e =
      (set_to demoting_voter, refl, Stepped-set voter demoting_voter add_learner h refl refl)
  joint_arm_lem (some voter) remove h e =
      (set_to demoting_voter, refl, Stepped-set voter demoting_voter remove h refl refl)
  joint_arm_lem (some incoming_voter) t h e = cc
  joint_arm_lem (some demoting_voter) t h e = cc

joint_step_lem :
    (c : ChangeReplica) (s : Joining) (t : ChangeReplicaType)
    → c.change_type ≡ some t
    → AllKnown s.replicas
    → UniqueIds s.replicas
    → is_settled (role_at s.replicas c.replica_id) ≡ true
    → (s' : Joining) × (joint_step c s ≡ ok s') × Stepped c.replica_id t s s'
unfolding joint_step check_not_in_joint_state
joint_step_lem c s t e k u h =
    let arm = joint_arm_lem c s k u (role_at s.replicas c.replica_id) t refl h in
    (arm.0, ground (arith, arm.1), arm.2)

record Looped (cs : List ChangeReplica) (s s' : Joining) : Type 0 where
  roles : (j : ℕ) → role_at s'.replicas j ≡ loop_role (role_at s.replicas j) (change_at cs j)
  outs : (j : ℕ) → is_out s' j ≡ (drops (role_at s.replicas j) (change_at cs j) || is_out s j)
  known : AllKnown s'.replicas
  unique : UniqueIds s'.replicas

-- The replicas that a joint change names are not in a joint state.
abbrev pub AllSettled : List ChangeReplica → List ReplicaDesc → Type 0
AllSettled cs rs = All (λ c. is_settled (role_at rs c.replica_id) ≡ true) cs

AllSettled-step :
    (id : ℕ) (t : ChangeReplicaType) (s s' : Joining) (cs : List ChangeReplica)
    → ((j : ℕ)
        → role_at s'.replicas j
          ≡ (if id == j then loop_role (role_at s.replicas j) (some t) else role_at s.replicas j))
    → find_change id cs ≡ none
    → AllSettled cs s.replicas
    → AllSettled cs s'.replicas
AllSettled-step id t s s' [] st f a = tt
AllSettled-step id t s s' (c ∷ cs) st f a =
    (ground (arith, st c.replica_id, a.0), AllSettled-step id t s s' cs st (ground arith) a.1)

pub type_cases :
    (o : Option ChangeReplicaType) → is_some o ≡ true → (t : ChangeReplicaType) × (o ≡ some t)
type_cases none h = cc
type_cases (some t) h = (t, refl)

Looped-cons :
    (c : ChangeReplica) (t : ChangeReplicaType) (cs : List ChangeReplica) (s s1 s' : Joining)
    → c.change_type ≡ some t
    → find_change c.replica_id cs ≡ none
    → Stepped c.replica_id t s s1
    → Looped cs s1 s'
    → Looped (c ∷ cs) s s'
Looped-cons c t cs s s1 s' e f st lp = record {
  roles = λ j. ground (arith, st.roles j, lp.roles j);
  outs = λ j. ground (arith, st.roles j, st.outs j, lp.outs j);
  known = lp.known;
  unique = lp.unique;
}

joint_loop_lem :
    (cs : List ChangeReplica) (s : Joining)
    → IsBatch cs
    → AllKnown s.replicas
    → UniqueIds s.replicas
    → AllSettled cs s.replicas
    → (s' : Joining) × (joint_loop cs s ≡ ok s') × Looped cs s s'
unfolding joint_loop
joint_loop_lem [] s b k u a =
    (s, refl, record { roles = λ j. ground arith; outs = λ j. ground arith; known = k; unique = u })
joint_loop_lem (c ∷ cs) s b k u a =
    let ty = type_cases c.change_type b.1 in
    let st = joint_step_lem c s ty.0 ty.1 k u a.0 in
    let lp =
      joint_loop_lem cs st.0 b.2 st.2.known st.2.unique
        (AllSettled-step c.replica_id ty.0 s st.0 cs st.2.roles b.0 a.1) in
    (lp.0, rw (st.1) (lp.1), Looped-cons c ty.0 cs s st.0 lp.0 ty.1 b.0 st.2 lp.2)

-- The outcome of a joint change: who has which role, and that the descriptor stays well formed.
pub record Joined (cs : List ChangeReplica) (desc desc' : GroupDesc) : Type 0 where
  pub roles :
      (j : ℕ) → role_at desc'.replicas j ≡ enter_role (role_at desc.replicas j) (change_at cs j)
  pub known : AllKnown desc'.replicas
  pub unique : UniqueIds desc'.replicas
  pub same_epoch : desc'.epoch ≡ desc.epoch
  pub same_shards : desc'.shards ≡ desc.shards

-- From a descriptor of known roles and unique ids, a batch of changes to distinct replicas, none of
-- which is in a joint state, is accepted: every replica gets the role that `enter_role` gives for
-- its role and its change, ids stay unique, and shards and epoch stay as they were.
pub apply_enter_joint_lem :
    (desc : GroupDesc) (cs : List ChangeReplica)
    → IsBatch cs
    → AllKnown desc.replicas
    → UniqueIds desc.replicas
    → AllSettled cs desc.replicas
    → (desc' : GroupDesc) × (apply_enter_joint desc cs ≡ ok desc') × Joined cs desc desc'
unfolding apply_enter_joint
apply_enter_joint_lem desc cs b k u a =
    let lp =
      joint_loop_lem cs (record { replicas = desc.replicas; outgoing_learners = [] }) b k u a in
    let keep : ℕ → Bool = λ j. not (is_out lp.0 j) in
    (
      record desc { replicas = retain (λ r. keep r.id) lp.0.replicas },
      rw lp.1,
      record {
        roles = λ j. ground (arith, role_at-retain keep lp.0.replicas j, lp.2.roles j, lp.2.outs j);
        known = AllKnown-retain (λ r. keep r.id) lp.0.replicas lp.2.known;
        unique = UniqueIds-retain (λ r. keep r.id) lp.0.replicas lp.2.unique;
        same_epoch = refl;
        same_shards = refl;
      },
    )
