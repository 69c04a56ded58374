-- ===== src/RouteTable.antt =====
-- src/server/src/node/route_table.rs: the replicas of a node by group, with those that wait for the
-- root group's, and the raft nodes by replica. Both tables are behind a lock. What a replica and a
-- raft node are does not matter to the tables, and a waker is a number.
use engula.HashMap
use engula.HashMap.{Map, nat_key}
use engula.Prelude.{
  ==_refl, List, Option, [], any, if◌then◌else◌, none, on_option, or_true, refl, some, true, ℕ,
  ◌++◌, ◌==◌, ◌∷◌, ◌≡◌,
}
use engula.Root.{root_group_id}

pub record ReplicaRouteTable (R : Type 0) : Type 0 where
  pub replicas : Map ℕ R
  pub root_wakers : List ℕ

any-last : (w : ℕ) (ws : List ℕ) → any (λ x. x == w) (ws ++ w ∷ []) ≡ true
any-last w [] = rw (==_refl w) refl
any-last w (x ∷ ws) = rw (any-last w ws) (or_true (x == w))

abbrev add_waker : Option ℕ → List ℕ → List ℕ
add_waker none wakers = wakers
add_waker (some waker) wakers = wakers ++ waker ∷ []

module _ {R : Type 0} where
  -- `ReplicaRouteTable::new`
  abbrev pub empty_table : ReplicaRouteTable R
  empty_table = record { replicas = []; root_wakers = [] }

  unfoldable pub find_replica_of : ℕ → ReplicaRouteTable R → Option R
  find_replica_of group_id t = HashMap.get group_id t.replicas

  -- The replica of the root group, or the waker waits for it.
  unfoldable pub current_root_replica :
      Option ℕ → ReplicaRouteTable R → ReplicaRouteTable R × Option R
  current_root_replica waker t =
      on_option (HashMap.get root_group_id t.replicas)
        (record t { root_wakers = add_waker waker t.root_wakers }, none)
        λ replica. (t, some replica)

  -- The table after a replica of a group comes in, and the wakers that are woken.
  unfoldable pub update_replica : ℕ → R → ReplicaRouteTable R → ReplicaRouteTable R × List ℕ
  update_replica group_id replica t =
      if group_id == root_group_id
      then (
        record { replicas = HashMap.insert group_id replica t.replicas; root_wakers = [] },
        t.root_wakers,
      )
      else (record t { replicas = HashMap.insert group_id replica t.replicas }, [])

  unfoldable pub remove_replica_of : ℕ → ReplicaRouteTable R → ReplicaRouteTable R × Option R
  remove_replica_of group_id t =
      (record t { replicas = HashMap.remove group_id t.replicas }, HashMap.get group_id t.replicas)

  -- Who waits for the root group's replica is woken when it comes in, and then finds it.
  woken-found :
      (waker : ℕ) (replica : R) (t : ReplicaRouteTable R)
      → HashMap.get root_group_id t.replicas ≡ none
      → let waiting = (current_root_replica (some waker) t).0 in
        let updated = update_replica root_group_id replica waiting in
        (any (λ w. w == waker) updated.1 ≡ true)
        × ((current_root_replica none updated.0).1 ≡ some replica)
  unfolding current_root_replica update_replica
  woken-found waker replica t unknown =
      (rw (unknown, current_root_replica) (any-last waker t.root_wakers), refl)

-- `RaftRouteTable`: the facades of raft nodes by replica.
module _ {F : Type 0} where
  unfoldable pub find_sender : ℕ → Map ℕ F → Option F
  find_sender replica_id senders = HashMap.get replica_id senders

  unfoldable pub update_sender : ℕ → F → Map ℕ F → Map ℕ F
  update_sender replica_id sender senders = HashMap.insert replica_id sender senders

  unfoldable pub delete_sender : ℕ → Map ℕ F → Map ℕ F
  delete_sender replica_id senders = HashMap.remove replica_id senders
