-- ===== src/ConfigChange/Epoch.antt =====
-- The configuration changes of src/server/src/node/replica/fsm/mod.rs leave the epoch to their caller.
use engula.Meta.{ChangeReplica, GroupDesc}
use engula.Prelude.{ok_parts, List, [], arith, ok, ok-injective, ◌≡◌}
use engula.ConfigChange.{
  apply_enter_joint, apply_simple_change, check_not_in_joint_state, find_replica, joint_loop,
  simple_change,
}

pub epoch-apply_enter_joint :
    (d : GroupDesc) (cs : List ChangeReplica) (d' : GroupDesc)
    → apply_enter_joint d cs ≡ ok d'
    → d'.epoch ≡ d.epoch
unfolding apply_enter_joint
epoch-apply_enter_joint d cs d' h =
    let i =
      ok_parts (joint_loop cs (record { replicas = d.replicas; outgoing_learners = [] })) _ h in
    ground (arith, ok-injective i.2)

pub epoch-apply_simple_change :
    (d : GroupDesc) (c : ChangeReplica) (d' : GroupDesc)
    → apply_simple_change d c ≡ ok d'
    → d'.epoch ≡ d.epoch
unfolding apply_simple_change
epoch-apply_simple_change d c d' h =
    let i = ok_parts (check_not_in_joint_state (find_replica c.replica_id d.replicas)) _ h in
    let j = ok_parts (simple_change c.change_type c d.replicas) _ i.2 in
    ground (arith, ok-injective j.2)
