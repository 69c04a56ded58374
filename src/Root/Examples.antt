-- ===== src/Root/Examples.antt =====
-- The root server's tables on concrete reports.
use engula.HashMap.{nat_key, pair_key}
use engula.Prelude.{
  All, List, false, [], ap, arith, none, refl, some, some_injective, sym, ℕ, ◌∷◌, ◌≡◌,
}
use engula.RaftLog.Storage.Reads.{term}
use engula.Root.{GroupUpdates, Tables, get_group, handle_group_detail, report}
use engula.Root.Reports.{HasGrown, IsOfGroup, report-HasGrown}
use engula.Root.Watch.{WatchHub, WatcherInner}
use engula.Root.Watch.Delivery.{
  HubAction, IsWaiting, Leaves, events_notified, received, run, sent, watcher_created,
  watcher_dropped, watcher_polled,
}
use engula.Root.Watch.Received.{AddsUp}
use engula.Root.Watch.Run.{run-AddsUp}
use engula.Root.Heartbeats.{detail_of, handle_group_detail-stale}
use engula.Root.Liveness.{
  Liveness, answered, failed, hear_all, hear_all-not_dead, is_dead, node_liveness,
}
use engula.Meta.{delete_node, update_group, GroupDesc, ReplicaState, follower}

abbrev group_at : ℕ → GroupDesc
group_at epoch = record { id = 3; epoch = epoch; shards = []; replicas = [] }

abbrev replica_at : ℕ → ReplicaState
replica_at term = record {
  replica_id = 8;
  group_id = 3;
  term = term;
  voted_for = 0;
  role = some follower;
  node_id = 1;
}

abbrev known_tables : Tables
known_tables = record {
  groups = (3, group_at 5) ∷ [];
  replica_states = ((3, 8), replica_at 4) ∷ [];
}

abbrev late_update : GroupUpdates
late_update = record {
  group_id = 3;
  group_desc = some (group_at 4);
  replica_state = some (replica_at 6);
  schedule_state = none;
}

late_update-IsOfGroup : IsOfGroup late_update
unfolding IsOfGroup
late_update-IsOfGroup = (
  λ desc is_desc. ap (λ d. d.id) (sym (some_injective is_desc)),
  λ state is_state. ap (λ d. d.group_id) (sym (some_injective is_state)),
)

report-HasGrown_example : HasGrown known_tables (report (late_update ∷ []) known_tables).0
report-HasGrown_example =
    report-HasGrown (late_update ∷ []) known_tables (late_update-IsOfGroup, tt)

handle_group_detail-stale_example :
    (get_group 3 (handle_group_detail (group_at 5 ∷ []) (detail_of (group_at 7)) known_tables).0
      ≡ some (group_at 7))
    × (get_group 3
          (handle_group_detail
            (group_at 5 ∷ [])
            (detail_of (group_at 6))
            (handle_group_detail (group_at 5 ∷ []) (detail_of (group_at 7)) known_tables).0).0
        ≡ some (group_at 6))
handle_group_detail-stale_example =
    handle_group_detail-stale (group_at 5 ∷ []) (group_at 7) (group_at 6) (group_at 5) known_tables
      refl refl (ground arith) (ground arith)

-- A watcher that is created, and then told of a group that changes, and polled twice.
abbrev one_inner : WatcherInner
one_inner = record { waker = none; updates = []; deletes = []; err = none; dropped = false }

abbrev one_hub : WatchHub
one_hub = record { next_watcher_id = 1; watchers = 1 ∷ []; inners = (1, one_inner) ∷ [] }

abbrev watched_actions : List HubAction
watched_actions =
    events_notified (update_group (group_at 5) ∷ []) []
    ∷ watcher_polled 1 20
    ∷ watcher_created [] []
    ∷ watcher_dropped 2
    ∷ events_notified [] (delete_node 4 ∷ [])
    ∷ watcher_polled 1 21
    ∷ []

one_inner-IsWaiting : IsWaiting 1 one_hub one_inner
one_inner-IsWaiting = record {
  kept = refl;
  live = refl;
  sound = refl;
  listed = refl;
  counted = ground arith;
}

watched_actions-Leaves : All (Leaves 1) watched_actions
unfolding Leaves
watched_actions-Leaves = (tt, (tt, (tt, (refl, (tt, (tt, tt))))))

run-AddsUp_example :
    (after : WatcherInner) × IsWaiting 1 (run watched_actions one_hub).0 after
    × AddsUp one_inner after (received 1 (run watched_actions one_hub).1) (sent watched_actions)
run-AddsUp_example =
    run-AddsUp 1 watched_actions one_hub one_inner one_inner-IsWaiting watched_actions-Leaves
      (ground arith)

abbrev no_nodes : Liveness
no_nodes = record { liveness_threshold = 30000; nodes = [] }

-- The clock went back between two answers, and then a heartbeat failed.
hear_all-not_dead_example :
    is_dead
      (node_liveness 7 90500
        (hear_all (answered 7 90000 ∷ answered 7 80000 ∷ failed 7 90400 ∷ []) no_nodes))
      120000
    ≡ false
hear_all-not_dead_example =
    hear_all-not_dead 7 90000 120000 90500 (answered 7 80000 ∷ failed 7 90400 ∷ []) no_nodes
      (ground arith)
