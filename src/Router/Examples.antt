-- ===== src/Router/Examples.antt =====
-- The router's tables on concrete events.
use engula.HashMap
use text.Mathlib.TextEquality.{eq_iff}
use mathlib.Core.Bool.{false≢true}
use engula.HashMap.{nat_key, string_key, pair_key}
use engula.Prelude.{
  inl, inr, ap, false, ok, some_injective, sym, ◌≢◌, List, [], none, refl, some, true, ℕ, ◌∷◌, ◌≡◌,
}
use engula.Router.{
  State, apply_collection, apply_database, RouterGroupState, apply_group_descriptor,
  apply_update_event, apply_updates, empty_state, find_group_by_shard, leader_state,
}
use engula.Router.Leaders.{Elected, leader_state_lem}
use engula.Router.Names.{
  AreCollectionNamesCurrent, apply_collection-AreCollectionNamesCurrent, apply_database-renamed,
}
use engula.Router.Shards.{IsSlotOf, find_shard-hash, find_shard-range}
use engula.ShardKeys.{belong_to}
use Prim.Native.String.{String}
use engula.Meta.{
  CollectionDesc, DatabaseDesc, GroupState, UpdateEvent, by_hash, by_range, update_group, leader,
  GroupDesc, ShardDesc, hash, range, follower,
}

abbrev shard_one : ShardDesc
shard_one = record {
  id = 1;
  collection_id = 1;
  partition = some (hash (record { slot_id = 0; slots = 1 }));
}

abbrev described : ℕ → ℕ → List ShardDesc → GroupDesc
described id epoch shards = record { id = id; epoch = epoch; shards = shards; replicas = [] }

-- Shard 1 moves from group 1 to group 2, whose descriptor comes first.
abbrev moved_events : List UpdateEvent
moved_events =
    update_group (described 1 1 (shard_one ∷ []))
    ∷ update_group (described 2 1 [])
    ∷ update_group (described 2 7 (shard_one ∷ []))
    ∷ update_group (described 1 7 [])
    ∷ []

abbrev second_group : RouterGroupState
second_group = record { id = 2; epoch = 7; leader_state = none; replicas = [] }

-- The descriptor of group 1 came too late to be the shard's.
abbrev lost_events : List UpdateEvent
lost_events = update_group (described 1 1 (shard_one ∷ [])) ∷ update_group (described 1 7 []) ∷ []

lost_shard : find_group_by_shard 1 (apply_updates lost_events empty_state) ≡ none
unfolding find_group_by_shard apply_updates apply_update_event apply_group_descriptor
lost_shard = refl

abbrev renamed_leaders : GroupState
renamed_leaders = record {
  group_id = 1;
  leader_id = some 4;
  replicas =
      record {
        replica_id = 3;
        group_id = 1;
        term = 2;
        voted_for = 0;
        role = some leader;
        node_id = 1;
      }
      ∷ record {
        replica_id = 4;
        group_id = 1;
        term = 5;
        voted_for = 0;
        role = some leader;
        node_id = 2;
      }
      ∷ record {
        replica_id = 5;
        group_id = 1;
        term = 6;
        voted_for = 0;
        role = some follower;
        node_id = 3;
      }
      ∷ [];
}

leader_state_example : Elected renamed_leaders.replicas (leader_state renamed_leaders)
leader_state_example = leader_state_lem renamed_leaders 4 refl

-- Names.
abbrev old_database : DatabaseDesc
old_database = record { id = 3; name = "old" }

abbrev new_database : DatabaseDesc
new_database = record { id = 3; name = "new" }

abbrev named_state : State
named_state = record empty_state {
  db_id_lookup = (3, old_database) ∷ [];
  db_name_lookup = ("old", 3) ∷ [];
}

names_differ : ◌≢◌ {A = String} "old" "new"
names_differ e = false≢true ((eq_iff "old" "new").1 e)

apply_database-renamed_example :
    HashMap.get "old" (apply_database new_database named_state).db_name_lookup ≡ some 3
apply_database-renamed_example =
    apply_database-renamed new_database old_database named_state refl names_differ refl

abbrev old_collection : CollectionDesc
old_collection = record { id = 8; name = "old"; db = 3; partition = some by_range }

abbrev collected_state : State
collected_state = record empty_state {
  co_id_lookup = (8, old_collection) ∷ [];
  co_name_lookup = ((3, "old"), 8) ∷ [];
  co_shards_lookup =
      (
        8,
        record {
          id = 1;
          collection_id = 8;
          partition = some (range (record { start = []; end = 5 ∷ [] }));
        }
            ∷ [],
      )
      ∷ [];
  shard_group_lookup = (1, (2, 7)) ∷ [];
  group_id_lookup = (2, second_group) ∷ [];
}

collected_state-AreCollectionNamesCurrent : AreCollectionNamesCurrent collected_state
unfolding AreCollectionNamesCurrent
collected_state-AreCollectionNamesCurrent db name id at =
    elim (HashMap.inserted {K = ℕ × String} (db, name) (3, "old") 8 [] at) [
      | inl here ↦ (
        old_collection,
        ap (λ i. HashMap.get i collected_state.co_id_lookup) (sym here.1),
        ap (λ p. p.0) here.0,
        ap (λ p. p.1) here.0,
      )
      | inr elsewhere ↦ cc
    ]

apply_collection-AreCollectionNamesCurrent_example :
    AreCollectionNamesCurrent
      (apply_collection (record old_collection { name = "new" }) collected_state)
apply_collection-AreCollectionNamesCurrent_example =
    apply_collection-AreCollectionNamesCurrent (record old_collection { name = "new" })
      collected_state collected_state-AreCollectionNamesCurrent
      (λ old is_old. ap (λ d. d.db) (sym (some_injective is_old)))

find_shard-range_example :
    belong_to
      (λ _. 0)
      (record {
        id = 1;
        collection_id = 8;
        partition = some (range (record { start = []; end = 5 ∷ [] }));
      })
      (6 ∷ [])
    ≡ ok false
unfolding engula.Router.Find.find_shard find_group_by_shard
find_shard-range_example =
    find_shard-range (λ _. 0) old_collection (6 ∷ []) collected_state
      (record { start = []; end = 5 ∷ [] })
      {out = (
        second_group,
        record {
          id = 1;
          collection_id = 8;
          partition = some (range (record { start = []; end = 5 ∷ [] }));
        },
      )}
      refl refl refl refl

abbrev slotted_state : State
slotted_state = record empty_state {
  co_shards_lookup = (1, shard_one ∷ []) ∷ [];
  shard_group_lookup = (1, (2, 7)) ∷ [];
  group_id_lookup = (2, second_group) ∷ [];
}

find_shard-hash_example :
    (belong_to (λ _. 5) shard_one (6 ∷ []) ≡ ok true)
    × (find_group_by_shard 1 slotted_state ≡ some second_group)
unfolding IsSlotOf engula.Router.Find.find_shard find_group_by_shard
find_shard-hash_example =
    find_shard-hash (λ _. 5) (record { id = 1; name = "c"; db = 3; partition = some (by_hash 1) })
      (6 ∷ []) slotted_state 1 (shard_one ∷ []) {out = (second_group, shard_one)} refl refl
      ((record { slot_id = 0; slots = 1 }, refl, refl), tt) refl
