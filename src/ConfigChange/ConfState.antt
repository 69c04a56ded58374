-- ===== src/ConfigChange/ConfState.antt =====
-- `conf_state_from_group_descriptor` of src/server/src/raftgroup/mod.rs: the raft configuration that
-- a restarted replica takes from its group descriptor.
use engula.ConfigChange.Enter.{IsBatch, apply_enter_joint_lem, change_at, is_settled}
use engula.ConfigChange.Leave.{AllSettled-of, is_incoming_voter, is_outgoing_voter}
use engula.ConfigChange.Roles.{AllKnown, UniqueIds, role_at}
use engula.Meta.{
  ChangeReplica, GroupDesc, ReplicaDesc, ReplicaRole, demoting_voter, incoming_voter, learner,
  voter,
}
use engula.Prelude.{
  Bool, List, Option, [], any, arith, false, if◌then◌else◌, none, not, ok, some, true, unwrap_or, ℕ,
  ◌++◌, ◌==◌, ◌||◌, ◌∷◌, ◌≡◌,
}
use engula.ConfigChange.{apply_enter_joint}

-- The fields of raft's `ConfState` that the code fills.
pub record ConfState : Type 0 where
  pub voters : List ℕ
  pub learners : List ℕ
  pub voters_outgoing : List ℕ
  pub learners_next : List ℕ

pub record Building : Type 0 where
  pub cs : ConfState
  pub in_joint : Bool

-- One round of the loop: the `match` on the role, where an unknown one counts as a voter.
add_to_conf : ReplicaRole → ℕ → Building → Building
add_to_conf voter id b = record b { cs = record (b.cs) { voters = b.cs.voters ++ id ∷ [] } }
add_to_conf learner id b = record b { cs = record (b.cs) { learners = b.cs.learners ++ id ∷ [] } }
add_to_conf incoming_voter id b = record {
  cs = record (b.cs) { voters = b.cs.voters ++ id ∷ [] };
  in_joint = true;
}
add_to_conf demoting_voter id b = record {
  cs = record (b.cs) {
    voters_outgoing = b.cs.voters_outgoing ++ id ∷ [];
    learners_next = b.cs.learners_next ++ id ∷ [];
  };
  in_joint = true;
}

conf_loop : List ReplicaDesc → Building → Building
unfolding add_to_conf
conf_loop [] b = b
conf_loop (r ∷ rs) b = conf_loop rs (add_to_conf (unwrap_or r.role voter) r.id b)

abbrev no_conf : Building
no_conf = record {
  cs = record { voters = []; learners = []; voters_outgoing = []; learners_next = [] };
  in_joint = false;
}

pub conf_state_from_group_descriptor : GroupDesc → ConfState
unfolding conf_loop
conf_state_from_group_descriptor desc =
    let b = conf_loop desc.replicas no_conf in
    if not b.in_joint then record (b.cs) { voters_outgoing = [] } else b.cs

-- Whether an id is in a list of them.
abbrev pub contains : ℕ → List ℕ → Bool
contains j ids = any (λ i. i == j) ids

contains-append : (j i : ℕ) (ids : List ℕ) → contains j (ids ++ i ∷ []) ≡ (contains j ids || i == j)
contains-append j i [] = ground arith
contains-append j i (x ∷ ids) = ground (arith, contains-append j i ids)

abbrev is_learner : Option ReplicaRole → Bool
is_learner (some learner) = true
is_learner _ = false

abbrev pub is_demoting : Option ReplicaRole → Bool
is_demoting (some demoting_voter) = true
is_demoting _ = false

module _ (j : ℕ) where
  -- What the loop adds to the four lists, seen at one id.
  record Built (rs : List ReplicaDesc) (b b' : Building) : Type 0 where
    in_voters :
        contains j b'.cs.voters ≡ (contains j b.cs.voters || is_incoming_voter (role_at rs j))
    in_learners :
        contains j b'.cs.learners ≡ (contains j b.cs.learners || is_learner (role_at rs j))
    in_outgoing :
        contains j b'.cs.voters_outgoing
        ≡ (contains j b.cs.voters_outgoing || is_demoting (role_at rs j))
    in_next :
        contains j b'.cs.learners_next
        ≡ (contains j b.cs.learners_next || is_demoting (role_at rs j))
    joint_of_demoting : is_demoting (role_at rs j) ≡ true → b'.in_joint ≡ true
    still_joint : b.in_joint ≡ true → b'.in_joint ≡ true

  Built-step :
      (role : ReplicaRole) (id : ℕ) (b : Building)
      → Built (record { id = id; node_id = 0; role = some role } ∷ []) b (add_to_conf role id b)
  unfolding add_to_conf
  Built-step voter id b = ground (arith, contains-append j id b.cs.voters)
  Built-step learner id b = ground (arith, contains-append j id b.cs.learners)
  Built-step incoming_voter id b = ground (arith, contains-append j id b.cs.voters)
  Built-step demoting_voter id b =
      ground
        (arith, contains-append j id b.cs.voters_outgoing, contains-append j id b.cs.learners_next)

  conf_loop_lem :
      (rs : List ReplicaDesc) (b : Building)
      → AllKnown rs
      → UniqueIds rs
      → Built rs b (conf_loop rs b)
  unfolding conf_loop
  conf_loop_lem [] b k u = ground arith
  conf_loop_lem (r ∷ rs) b k u =
      let b1 = add_to_conf (unwrap_or r.role voter) r.id b in
      let st = Built-step (unwrap_or r.role voter) r.id b in
      let rest = conf_loop_lem rs b1 k.1 u.1 in
      record {
        in_voters = ground (arith, st.in_voters, rest.in_voters, k.0, u.0);
        in_learners = ground (arith, st.in_learners, rest.in_learners, k.0, u.0);
        in_outgoing = ground (arith, st.in_outgoing, rest.in_outgoing, k.0, u.0);
        in_next = ground (arith, st.in_next, rest.in_next, k.0, u.0);
        joint_of_demoting =
            ground
              (arith, st.joint_of_demoting, rest.joint_of_demoting, rest.still_joint, k.0, u.0);
        still_joint = ground (arith, st.still_joint, rest.still_joint);
      }

-- What a restarted replica takes from a descriptor of known roles and unique ids: the voters are
-- those of the incoming configuration, the learners and the next learners are the learners and the
-- demoting voters, and the outgoing voters are the demoting voters and no others.
pub conf_state_lem :
    (desc : GroupDesc) (j : ℕ)
    → AllKnown desc.replicas
    → UniqueIds desc.replicas
    → let cs = conf_state_from_group_descriptor desc in
      (contains j cs.voters ≡ is_incoming_voter (role_at desc.replicas j))
      × (contains j cs.learners ≡ is_learner (role_at desc.replicas j))
      × (contains j cs.learners_next ≡ is_demoting (role_at desc.replicas j))
      × (contains j cs.voters_outgoing ≡ is_demoting (role_at desc.replicas j))
unfolding conf_state_from_group_descriptor
conf_state_lem desc j k u =
    let b = conf_loop_lem j desc.replicas no_conf k u in
    (
      ground (arith, b.in_voters),
      ground (arith, b.in_learners),
      ground (arith, b.in_next),
      ground (arith, b.in_outgoing, b.joint_of_demoting),
    )

-- A voter that a joint change leaves alone votes in the outgoing configuration, but the raft
-- configuration that a replica takes from the joint descriptor does not list it there.
pub conf_state_misses_outgoing :
    (desc : GroupDesc) (cs : List ChangeReplica) (j : ℕ)
    → IsBatch cs
    → AllKnown desc.replicas
    → UniqueIds desc.replicas
    → ((i : ℕ) → is_settled (role_at desc.replicas i) ≡ true)
    → role_at desc.replicas j ≡ some voter
    → change_at cs j ≡ none
    → (desc' : GroupDesc) × (apply_enter_joint desc cs ≡ ok desc')
      × (is_outgoing_voter (role_at desc'.replicas j) ≡ true)
      × (contains j (conf_state_from_group_descriptor desc').voters_outgoing ≡ false)
conf_state_misses_outgoing desc cs j b k u a h e =
    let jn = apply_enter_joint_lem desc cs b k u (AllSettled-of cs desc.replicas a) in
    let conf = conf_state_lem jn.0 j jn.2.known jn.2.unique in
    (jn.0, jn.1, ground (arith, jn.2.roles j), ground (arith, jn.2.roles j, conf.3))
