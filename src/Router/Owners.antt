-- ===== src/Router/Owners.antt =====
-- Which group src/client/src/router.rs holds to own a shard, from the descriptors that came.
use engula.HashMap
use engula.HashMap.{nat_key}
use engula.Prelude.{
  sym, Option-cases, ==_iff, Bool-cases, ap, false, inl, inr, true, ◌∙◌, Bool, List, Option, [],
  any, arith, if◌then◌else◌, none, refl, some, ℕ, ◌==◌, ◌∷◌, ◌≡◌,
}
use engula.Router.{
  RouterGroupState, apply_collection, apply_database, apply_group_state, insert_group, known_leader,
  apply_group_descriptor, apply_update_event, apply_updates, State, apply_shard, apply_shards,
  owner_after,
}
use engula.Meta.{
  GroupState, UpdateEvent, update_collection, update_database, update_group, update_group_state,
  update_node, GroupDesc, ShardDesc,
}

unfoldable pub has_shard : ℕ → List ShardDesc → Bool
has_shard shard shards = any (λ s. s.id == shard) shards

owner_after-owner_after :
    (id epoch : ℕ) (at : Option (ℕ × ℕ))
    → owner_after id epoch (some (owner_after id epoch at)) ≡ owner_after id epoch at
unfolding owner_after
owner_after-owner_after id epoch none = ground arith
owner_after-owner_after id epoch (some at) = ground arith

again :
    (id epoch : ℕ) (at : Option (ℕ × ℕ)) (b : Bool)
    → (if b
        then some (owner_after id epoch (some (owner_after id epoch at)))
        else some (owner_after id epoch at))
      ≡ some (owner_after id epoch at)
again id epoch at true = ap some (owner_after-owner_after id epoch at)
again id epoch at false = refl

get-apply_shard :
    (shard id epoch : ℕ) (x : ShardDesc) (s : State)
    → HashMap.get shard (apply_shard id epoch x s).shard_group_lookup ≡ (
        if x.id == shard
        then some (owner_after id epoch (HashMap.get shard s.shard_group_lookup))
        else HashMap.get shard s.shard_group_lookup)
unfolding apply_shard
get-apply_shard shard id epoch x s = elim (Bool-cases (x.id == shard)) [
  | inl same ↦
      HashMap.get-insert shard x.id (owner_after id epoch (HashMap.get x.id s.shard_group_lookup))
        s.shard_group_lookup
      ∙ ap
          (λ i.
            if x.id == shard
            then some (owner_after id epoch (HashMap.get i s.shard_group_lookup))
            else HashMap.get shard s.shard_group_lookup)
          ((==_iff x.id shard).0 same)
  | inr other ↦
      HashMap.get-insert shard x.id (owner_after id epoch (HashMap.get x.id s.shard_group_lookup))
        s.shard_group_lookup
      ∙ rw other refl
]

get-apply_shards :
    (shard id epoch : ℕ) (shards : List ShardDesc) (s : State)
    → HashMap.get shard (apply_shards id epoch shards s).shard_group_lookup ≡ (
        if has_shard shard shards
        then some (owner_after id epoch (HashMap.get shard s.shard_group_lookup))
        else HashMap.get shard s.shard_group_lookup)
unfolding apply_shards has_shard
get-apply_shards shard id epoch [] s = refl
get-apply_shards shard id epoch (x ∷ shards) s =
    get-apply_shards shard id epoch shards (apply_shard id epoch x s)
    ∙ elim (Bool-cases (x.id == shard)) [
      | inl same ↦
          rw (get-apply_shard shard id epoch x s, same)
            (again id epoch (HashMap.get shard s.shard_group_lookup) (has_shard shard shards))
      | inr other ↦ rw (get-apply_shard shard id epoch x s, other) refl
    ]

-- The descriptors leave the other tables of groups alone.
group_id_lookup-apply_shards :
    (id epoch : ℕ) (shards : List ShardDesc) (s : State)
    → (apply_shards id epoch shards s).group_id_lookup ≡ s.group_id_lookup
unfolding apply_shards apply_shard
group_id_lookup-apply_shards id epoch [] s = refl
group_id_lookup-apply_shards id epoch (x ∷ shards) s =
    group_id_lookup-apply_shards id epoch shards (apply_shard id epoch x s)

-- The newest of the descriptors that list the shard, by group and epoch: the first of its epoch.
unfoldable pub owner : ℕ → List UpdateEvent → Option (ℕ × ℕ) → Option (ℕ × ℕ)
unfolding has_shard owner_after
owner shard [] at = at
owner shard (update_group d ∷ events) at =
    owner shard events (if has_shard shard d.shards then some (owner_after d.id d.epoch at) else at)
owner shard (_ ∷ events) at = owner shard events at

-- The last descriptor of a group, by group and epoch.
unfoldable pub last_seen : ℕ → List UpdateEvent → Option (ℕ × ℕ) → Option (ℕ × ℕ)
last_seen id [] at = at
last_seen id (update_group d ∷ events) at =
    last_seen id events (if d.id == id then some (id, d.epoch) else at)
last_seen id (_ ∷ events) at = last_seen id events at

unfoldable pub summary : Option RouterGroupState → Option (ℕ × ℕ)
summary none = none
summary (some group) = some (group.id, group.epoch)

known_leader-tables :
    (id : ℕ) (s : State)
    → ((known_leader id s).1.shard_group_lookup ≡ s.shard_group_lookup)
      × ((known_leader id s).1.group_id_lookup ≡ s.group_id_lookup)
unfolding known_leader
known_leader-tables id s = elim (Option-cases (HashMap.get id s.group_id_lookup)) [
  | inr (old, known) ↦ rw (known, known_leader) (refl, refl)
  | inl unknown ↦ elim (Option-cases (HashMap.get id s.cached_group_states)) [
    | inl none_cached ↦ rw (unknown, none_cached, known_leader) (refl, refl)
    | inr (cached, is_cached) ↦ rw (unknown, is_cached, known_leader) (refl, refl)
  ]
]

get-apply_group_descriptor :
    (shard : ℕ) (d : GroupDesc) (s : State)
    → HashMap.get shard (apply_group_descriptor d s).shard_group_lookup ≡ (
        if has_shard shard d.shards
        then some (owner_after d.id d.epoch (HashMap.get shard s.shard_group_lookup))
        else HashMap.get shard s.shard_group_lookup)
unfolding apply_group_descriptor insert_group
get-apply_group_descriptor shard d s =
    get-apply_shards shard d.id d.epoch d.shards (insert_group d s)
    ∙ rw ((known_leader-tables d.id s).0) refl

summary-apply_group_descriptor :
    (id : ℕ) (d : GroupDesc) (s : State)
    → summary (HashMap.get id (apply_group_descriptor d s).group_id_lookup)
      ≡ (if d.id == id then some (id, d.epoch) else summary (HashMap.get id s.group_id_lookup))
unfolding apply_group_descriptor insert_group summary
summary-apply_group_descriptor id d s =
    ap (λ m. summary (HashMap.get id m))
      (group_id_lookup-apply_shards d.id d.epoch d.shards (insert_group d s))
    ∙ ap summary (HashMap.get-insert id d.id _ (known_leader d.id s).1.group_id_lookup)
    ∙ elim (Bool-cases (d.id == id)) [
      | inl same ↦ rw (same, (==_iff d.id id).0 same) refl
      | inr other ↦ rw (other, (known_leader-tables d.id s).1) refl
    ]

summary-apply_group_state :
    (id : ℕ) (g : GroupState) (s : State)
    → summary (HashMap.get id (apply_group_state g s).group_id_lookup)
      ≡ summary (HashMap.get id s.group_id_lookup)
unfolding apply_group_state summary
summary-apply_group_state id g s = elim (Option-cases (HashMap.get g.group_id s.group_id_lookup)) [
  | inl unknown ↦ rw (unknown, apply_group_state) refl
  | inr (group, known) ↦
      rw (known, apply_group_state)
        (ap summary (HashMap.get-insert id g.group_id _ s.group_id_lookup)
          ∙ elim (Bool-cases (g.group_id == id)) [
            | inl same ↦ rw (same, sym ((==_iff g.group_id id).0 same), known) refl
            | inr other ↦ rw other refl
          ])
]

shard_group_lookup-apply_group_state :
    (g : GroupState) (s : State) → (apply_group_state g s).shard_group_lookup ≡ s.shard_group_lookup
unfolding apply_group_state
shard_group_lookup-apply_group_state g s =
    elim (Option-cases (HashMap.get g.group_id s.group_id_lookup)) [
      | inr (group, known) ↦ rw (known, apply_group_state) refl
      | inl unknown ↦ rw (unknown, apply_group_state) refl
    ]

pub get-apply_updates :
    (shard : ℕ) (events : List UpdateEvent) (s : State)
    → HashMap.get shard (apply_updates events s).shard_group_lookup
      ≡ owner shard events (HashMap.get shard s.shard_group_lookup)
unfolding apply_updates apply_update_event owner apply_database apply_collection
get-apply_updates shard [] s = refl
get-apply_updates shard (update_group d ∷ events) s =
    get-apply_updates shard events (apply_group_descriptor d s)
    ∙ ap (owner shard events) (get-apply_group_descriptor shard d s)
get-apply_updates shard (update_group_state g ∷ events) s =
    get-apply_updates shard events (apply_group_state g s)
    ∙ ap (λ m. owner shard events (HashMap.get shard m)) (shard_group_lookup-apply_group_state g s)
get-apply_updates shard (update_node d ∷ events) s =
    get-apply_updates shard events (apply_update_event (update_node d) s)
get-apply_updates shard (update_database d ∷ events) s =
    get-apply_updates shard events (apply_database d s)
get-apply_updates shard (update_collection d ∷ events) s =
    get-apply_updates shard events (apply_collection d s)

pub summary-apply_updates :
    (id : ℕ) (events : List UpdateEvent) (s : State)
    → summary (HashMap.get id (apply_updates events s).group_id_lookup)
      ≡ last_seen id events (summary (HashMap.get id s.group_id_lookup))
unfolding apply_updates apply_update_event apply_database apply_collection last_seen summary
summary-apply_updates id [] s = refl
summary-apply_updates id (update_group d ∷ events) s =
    summary-apply_updates id events (apply_group_descriptor d s)
    ∙ ap (last_seen id events) (summary-apply_group_descriptor id d s)
summary-apply_updates id (update_group_state g ∷ events) s =
    summary-apply_updates id events (apply_group_state g s)
    ∙ ap (last_seen id events) (summary-apply_group_state id g s)
summary-apply_updates id (update_node d ∷ events) s =
    summary-apply_updates id events (apply_update_event (update_node d) s)
summary-apply_updates id (update_database d ∷ events) s =
    summary-apply_updates id events (apply_database d s)
summary-apply_updates id (update_collection d ∷ events) s =
    summary-apply_updates id events (apply_collection d s)
