-- ===== src/Router/Shards.antt =====
-- Which shard src/client/src/router.rs takes for a key, beside src/api/src/shard.rs, by which the
-- servers decide.
use engula.HashMap
use engula.HashMap.{nat_key}
use engula.Prelude.{
  arith, ==_refl, division_by_zero, err, length, not, ok_or, panic, refl, ◌%◌, ◌^◌, ==_iff, false,
  ok-injective, ok_or-ok, ok_parts, unwrap, ◌>>=◌, All, Bool-cases, List, [], ap, if◌then◌else◌,
  inl, inr, ok, some, sym, true, ℕ, ◌==◌, ◌∙◌, ◌∷◌, ◌≡◌,
}
use engula.Router.{not_found, RouterGroupState, State, find_group_by_shard}
use engula.Router.Find.{
  find_in, find_slot_shard, takes_range, collection_shards, find_hash, find_shard, find_range,
  find_slot, get_group_by_shard, has_slot, takes, with_group,
}
use engula.ShardKeys.{key_leb, in_range, key_slot, belong_to, is_empty, partition_has}
use engula.ShardKeys.Ranges.{key_leb_total}
use engula.Meta.{
  CollectionDesc, by_hash, by_range, RangePartition, HashPartition, Bytes, ShardDesc, hash, range,
}

-- A shard of a slot of so many.
unfoldable pub IsSlotOf : ℕ → ShardDesc → Type 0
IsSlotOf slots shard = (h : HashPartition) × (shard.partition ≡ some (hash h)) × (h.slots ≡ slots)

found_slot :
    (slot slots : ℕ) (shards : List ShardDesc) {shard : ShardDesc}
    → All (IsSlotOf slots) shards
    → find_slot slot shards ≡ ok shard
    → (h : HashPartition) × (shard.partition ≡ some (hash h))
      × (h.slots ≡ slots)
      × (h.slot_id ≡ slot)
unfolding find_slot has_slot IsSlotOf
found_slot slot slots [] all h = cc
found_slot slot slots (x ∷ xs) {shard} ((part, is_part, of), all) h =
    let found =
      sym (ap (λ p. unwrap p >>= λ q. if has_slot slot q then ok x else find_slot slot xs) is_part)
      ∙ h in
    elim (Bool-cases (part.slot_id == slot)) [
      | inl same ↦
          let at =
            ok-injective (sym (ap (λ b. if b then ok x else find_slot slot xs) same) ∙ found) in
          (part, ap (λ d. d.partition) (sym at) ∙ is_part, of, (==_iff part.slot_id slot).0 same)
      | inr unlike ↦
          found_slot slot slots xs all
            (sym (ap (λ b. if b then ok x else find_slot slot xs) unlike) ∙ found)
    ]

grouped :
    (shard : ShardDesc) (s : State) {out : RouterGroupState × ShardDesc}
    → with_group shard s ≡ ok out
    → (shard ≡ out.1) × (find_group_by_shard shard.id s ≡ some out.0)
unfolding with_group get_group_by_shard
grouped shard s h =
    let parts = ok_parts (get_group_by_shard shard.id s) (λ group. ok (group, shard)) h in
    let same = ok-injective parts.2 in
    (
      ap (λ p. p.1) same,
      ok_or-ok not_found (find_group_by_shard shard.id s) parts.1 ∙ ap (λ p. some p.0) same,
    )

found_range :
    (key : Bytes) (shards : List ShardDesc) (s : State) {out : RouterGroupState × ShardDesc}
    → find_range key shards s ≡ ok out
    → (takes out.1.partition key ≡ true) × (find_group_by_shard out.1.id s ≡ some out.0)
unfolding find_range
found_range key [] s h = cc
found_range key (x ∷ xs) s {out} h = elim (Bool-cases (takes x.partition key)) [
  | inl taken ↦
      let at =
        grouped x s (sym (ap (λ b. if b then with_group x s else find_range key xs s) taken) ∙ h) in
      (
        ap (λ d. takes d.partition key) (sym at.0) ∙ taken,
        ap (λ d. find_group_by_shard d.id s) (sym at.0) ∙ at.1,
      )
  | inr passed ↦
      found_range key xs s
        (sym (ap (λ b. if b then with_group x s else find_range key xs s) passed) ∙ h)
]

-- A range that is taken though it has an end.
behind :
    (key : Bytes) (r : RangePartition)
    → is_empty r.end ≡ false
    → takes (some (range r)) key ≡ true
    → in_range r.start r.end key ≡ false
unfolding takes takes_range
behind key r bounded taken = elim (Bool-cases (key_leb key r.end)) [
  | inl before ↦ ground (arith, bounded, taken, before)
  | inr past ↦ ground (arith, bounded, key_leb_total key r.end past)
]

module _ (crc32 : Bytes → ℕ) where
  has_key :
      (shard : ShardDesc) (key : Bytes) (slots : ℕ) (h : HashPartition)
      → (slots == 0) ≡ false
      → shard.partition ≡ some (hash h)
      → h.slots ≡ slots
      → h.slot_id ≡ crc32 key % slots
      → belong_to crc32 shard key ≡ ok true
  unfolding belong_to partition_has key_slot
  has_key shard key slots h filled is_part of at =
      rw (is_part, of, filled, at, ==_refl (crc32 key % slots)) refl

  slot_shard :
      (key : Bytes) (s : State) (slots : ℕ) (shards : List ShardDesc)
      {out : RouterGroupState × ShardDesc}
      → (slots == 0) ≡ false
      → All (IsSlotOf slots) shards
      → find_slot_shard crc32 slots key s shards ≡ ok out
      → (belong_to crc32 out.1 key ≡ ok true) × (find_group_by_shard out.1.id s ≡ some out.0)
  unfolding find_slot_shard belong_to partition_has key_slot
  slot_shard key s slots shards {out} filled all h =
      elim (Bool-cases (slots == length shards % 2 ^ 32)) [
        | inr stale ↦ cc (
            sym (
              ap
                (λ b.
                  if not b
                  then err not_found
                  else find_slot (crc32 key % slots) shards >>= λ shard. with_group shard s)
                stale)
            ∙ h)
        | inl current ↦
            let h₁ =
              sym (
                ap
                  (λ b.
                    if not b
                    then err not_found
                    else find_slot (crc32 key % slots) shards >>= λ shard. with_group shard s)
                  current)
              ∙ h in
            let parts =
              ok_parts (find_slot (crc32 key % slots) shards) (λ shard. with_group shard s) h₁ in
            let slot_of = found_slot (crc32 key % slots) slots shards all parts.1 in
            let at = grouped parts.0 s parts.2 in
            (
              ap (λ d. belong_to crc32 d key) (sym at.0)
                  ∙ has_key parts.0 key slots slot_of.0 filled slot_of.1 slot_of.2 slot_of.3,
              ap (λ d. find_group_by_shard d.id s) (sym at.0) ∙ at.1,
            )
      ]

  -- Of a collection in slots, the shard that is found for a key is one to which the key belongs, with
  -- the group that the tables hold for it; this where the shards of the collection are its slots.
  pub find_shard-hash :
      (desc : CollectionDesc) (key : Bytes) (s : State) (slots : ℕ) (shards : List ShardDesc)
      {out : RouterGroupState × ShardDesc}
      → desc.partition ≡ some (by_hash slots)
      → HashMap.get desc.id s.co_shards_lookup ≡ some shards
      → All (IsSlotOf slots) shards
      → find_shard crc32 desc key s ≡ ok out
      → (belong_to crc32 out.1 key ≡ ok true) × (find_group_by_shard out.1.id s ≡ some out.0)
  unfolding find_shard find_hash collection_shards
  find_shard-hash desc key s slots shards {out} hashed known all h =
      let h₁ = sym (ap (λ p. find_in crc32 p desc.id key s) hashed) ∙ h in
      elim (Bool-cases (slots == 0)) [
        | inl no_slots ↦ cc (
            sym (
              ap
                (λ b.
                  if b
                  then panic division_by_zero
                  else collection_shards desc.id s >>= find_slot_shard crc32 slots key s)
                no_slots)
            ∙ h₁)
        | inr filled ↦
            let h₂ =
              sym (
                ap
                  (λ b.
                    if b
                    then panic division_by_zero
                    else collection_shards desc.id s >>= find_slot_shard crc32 slots key s)
                  filled)
              ∙ h₁ in
            let h₃ =
              sym (ap (λ o. ok_or not_found o >>= find_slot_shard crc32 slots key s) known) ∙ h₂ in
            slot_shard key s slots shards filled all h₃
      ]

  -- Of a collection in ranges, a shard that is found for a key and whose range has an end is not one
  -- to which the key belongs.
  pub find_shard-range :
      (desc : CollectionDesc) (key : Bytes) (s : State) (r : RangePartition)
      {out : RouterGroupState × ShardDesc}
      → desc.partition ≡ some by_range
      → find_shard crc32 desc key s ≡ ok out
      → out.1.partition ≡ some (range r)
      → is_empty r.end ≡ false
      → belong_to crc32 out.1 key ≡ ok false
  unfolding find_shard collection_shards belong_to partition_has
  find_shard-range desc key s r {out} ranged h is_range bounded =
      let h₁ = sym (ap (λ p. find_in crc32 p desc.id key s) ranged) ∙ h in
      let parts = ok_parts (collection_shards desc.id s) (λ shards. find_range key shards s) h₁ in
      let taken = found_range key parts.0 s parts.2 in
      ap (λ p. unwrap p >>= λ q. partition_has crc32 q key) is_range
      ∙ ap ok (behind key r bounded (ap (λ p. takes p key) (sym is_range) ∙ taken.0))
