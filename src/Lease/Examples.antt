-- ===== src/Lease/Examples.antt =====
-- The observer of a leader's lease on a concrete state.
use engula.Lease.{
  LeaseState, ReplicaInfo, new, notified, observe, observe_call, on_term_updated, wake,
  wake_all_waiters,
}
use engula.Meta.{GroupDesc, leader}
use engula.Prelude.{[], none, refl, some, ◌∷◌, ◌≡◌}
use engula.Fsm.{term_updated}

abbrev info : ReplicaInfo
info = record { replica_id = 11; group_id = 1; node_id = 2 }

abbrev desc : GroupDesc
desc = record { id = 1; epoch = 3; shards = []; replicas = [] }

-- A leader of term 4 that two calls wait for.
abbrev waiting : LeaseState
waiting = record (new desc none) {
  applied_term = 3;
  replica_state = record {
    replica_id = 11;
    group_id = 1;
    term = 4;
    voted_for = 11;
    role = some leader;
    node_id = 2;
  };
  leader_subscribers = "a" ∷ "b" ∷ [];
}

woken : (observe_call info (notified (term_updated 4)) waiting).1 ≡ wake "a" ∷ wake "b" ∷ []
unfolding observe_call observe on_term_updated wake_all_waiters
woken = refl
