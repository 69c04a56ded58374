-- ===== src/Engine/Keys/RoundTrip.antt =====
-- The keys of src/server/src/node/engine/group.rs can be read back.
use engula.Engine.Keys.{
  is_empty, mvcc_key, revert_mvcc_key, to_be_bytes, to_le_bytes, encode_groups, mark, read_into,
  revert_user_key, slot_bytes, split_slot, user_part,
}
use engula.Engine.Keys.Groups.{
  length-to_be_bytes, length-to_le_bytes, decode_groups-encode_groups, drop-length-append,
  from_le_bytes-to_le_bytes, take-length-append, encode-step, length-read_into,
}
use engula.Meta.{Bytes}
use engula.Prelude.{
  is_some, ltb, u64_mod, unwrap_or, ◌>>=◌, debug_assert, leb, ◌%◌, ◌+◌, ◌-◌, ◌==◌, Bool, Option, [],
  arith, drop, false, length, length-append, length-drop, none, ok, refl, some, suc, take, true,
  zero, ℕ, ◌*◌, ◌++◌, ◌<◌, ◌^◌, ◌∷◌, ◌≡◌, ◌≤◌,
}
use engula.RaftLog.Cache.{front}
use engula.Error.{Error}
use mathlib.Core.Path.{subst}

-- The encoded key has nine bytes for each of its groups, which are enough for its own.
GroupCount : Bytes → Bytes → Type 0
GroupCount key out = (k : ℕ) × (length out ≡ 9 * k) × (length key ≤ 8 * k)

GroupCount-cons :
    (b : ℕ) (bs tail : Bytes) (m : ℕ)
    → GroupCount (drop 8 (b ∷ bs)) tail
    → GroupCount (b ∷ bs) (read_into 8 (take 8 (b ∷ bs)) ++ m ∷ tail)
unfolding GroupCount
GroupCount-cons b bs tail m (k, size, fits) = (
  suc k,
  omega (
    arith,
    length-append (read_into 8 (take 8 (b ∷ bs))) (m ∷ tail),
    length-read_into 8 (take 8 (b ∷ bs)),
    size,
  ),
  omega (arith, fits, length-drop 8 (b ∷ bs)),
)

GroupCount-nothing : (fuel : ℕ) → GroupCount [] (encode_groups fuel [])
unfolding GroupCount encode_groups
GroupCount-nothing zero = (0, omega arith, omega arith)
GroupCount-nothing (suc fuel) = (0, omega arith, omega arith)

encode_groups-GroupCount :
    (fuel : ℕ) (key : Bytes) → length key ≤ fuel → GroupCount key (encode_groups fuel key)
encode_groups-GroupCount fuel [] h = GroupCount-nothing fuel
encode_groups-GroupCount zero (b ∷ bs) h = absurd (omega (arith, h))
encode_groups-GroupCount (suc fuel) (b ∷ bs) h = rw (encode-step fuel b bs) (
    GroupCount-cons b bs (encode_groups fuel (drop 8 (b ∷ bs)))
      (mark (length (take 8 (b ∷ bs))) (drop 8 (b ∷ bs)))
      (encode_groups-GroupCount fuel (drop 8 (b ∷ bs)) (omega (arith, h, length-drop 8 (b ∷ bs)))))

full_length :
    (front middle back : Bytes)
    → length front ≡ 8
    → length back ≡ 8
    → length (front ++ (middle ++ back)) ≡ 16 + length middle
full_length front middle back f b =
    omega (arith, length-append front (middle ++ back), length-append middle back, f, b)

middle_length :
    (front middle back : Bytes)
    → length front ≡ 8
    → length back ≡ 8
    → length (front ++ (middle ++ back)) - 16 ≡ length middle
middle_length front middle back f b = omega (arith, full_length front middle back f b)

long_enough :
    (front middle back : Bytes)
    → length front ≡ 8
    → length back ≡ 8
    → leb 16 (length (front ++ (middle ++ back))) ≡ true
long_enough front middle back f b = rw (full_length front middle back f b) (ground arith)

behind_front : (front rest : Bytes) → length front ≡ 8 → drop 8 (front ++ rest) ≡ rest
behind_front front rest f =
    subst (λ n. drop n (front ++ rest) ≡ rest) f (drop-length-append front rest)

-- What is between the collection and the version of a key.
user_part-between :
    (front middle back : Bytes)
    → length front ≡ 8
    → length back ≡ 8
    → user_part (front ++ (middle ++ back)) ≡ ok middle
unfolding user_part
user_part-between front middle back f b =
    rw
      (
        long_enough front middle back f b,
        middle_length front middle back f b,
        behind_front front (middle ++ back) f,
        take-length-append middle back,
      )
      refl

split_slot-none :
    (checks : Bool) (out : Bytes)
    → split_slot checks false (slot_bytes none ++ out) ≡ ok (none, out)
unfolding split_slot slot_bytes
split_slot-none checks out = refl

split_slot-some :
    (checks : Bool) (slot : ℕ) (out : Bytes)
    → slot < 2 ^ 32
    → split_slot checks true (slot_bytes (some slot) ++ out) ≡ ok (some slot, out)
unfolding split_slot slot_bytes
split_slot-some true slot out h =
    ground (arith, from_le_bytes-to_le_bytes 4 slot (omega (arith, h)))
split_slot-some false slot out h =
    ground (arith, from_le_bytes-to_le_bytes 4 slot (omega (arith, h)))

whole_groups :
    (checks : Bool) (key : Bytes)
    → debug_assert {E = Error} checks (length (encode_groups (length key) key) % 9 == 0) ≡ ok tt
unfolding GroupCount
whole_groups false key = refl
whole_groups true key = ground (arith, (encode_groups-GroupCount (length key) key (omega arith)).1)

enough : (key : Bytes) → length key ≤ length (encode_groups (length key) key)
unfolding GroupCount
enough key =
    let count = encode_groups-GroupCount (length key) key (omega arith) in
    omega (arith, count.1, count.2)

revert_user_key-encoded :
    (checks : Bool) (slot : Option ℕ) (key : Bytes)
    → revert_user_key checks (slot, encode_groups (length key) key) ≡ ok (key, slot)
unfolding revert_user_key
revert_user_key-encoded checks slot key =
    rw
      (
        whole_groups checks key,
        decode_groups-encode_groups checks (length key) (length (encode_groups (length key) key))
            key (omega arith) (enough key),
      )
      refl

split_slot-slot_bytes :
    (checks : Bool) (slot : Option ℕ) (out : Bytes)
    → unwrap_or slot 0 < 2 ^ 32
    → split_slot checks (is_some slot) (slot_bytes slot ++ out) ≡ ok (slot, out)
split_slot-slot_bytes checks none out h = split_slot-none checks out
split_slot-slot_bytes checks (some slot) out h = split_slot-some checks slot out h

pub filled-length : (key : Bytes) → is_empty key ≡ false → 1 ≤ length key
filled-length [] h = cc
filled-length (b ∷ bs) h = omega arith

debug_assert-true : (checks b : Bool) → b ≡ true → debug_assert {E = Error} checks b ≡ ok tt
debug_assert-true true b h = rw h refl
debug_assert-true false b h = refl

ltb-lt : (a b : ℕ) → a < b → ltb a b ≡ true
ltb-lt a b h = ground (arith, h)

module _ (collection_id : ℕ) (slot : Option ℕ) (key : Bytes) (version : ℕ) where
  abbrev pub encoded : Bytes
  encoded =
      to_le_bytes 8 collection_id
      ++ ((slot_bytes slot ++ encode_groups (length key) key)
          ++ to_be_bytes 8 (u64_mod - 1 - version))

  user_part-encoded : user_part encoded ≡ ok (slot_bytes slot ++ encode_groups (length key) key)
  user_part-encoded =
      user_part-between (to_le_bytes 8 collection_id)
        (slot_bytes slot ++ encode_groups (length key) key) (to_be_bytes 8 (u64_mod - 1 - version))
        (length-to_le_bytes 8 collection_id) (length-to_be_bytes 8 (u64_mod - 1 - version))

  encoded-longer : is_empty key ≡ false → ltb 16 (length encoded) ≡ true
  encoded-longer h = ltb-lt 16 (length encoded) (
      omega (
        arith,
        full_length (to_le_bytes 8 collection_id)
            (slot_bytes slot ++ encode_groups (length key) key)
            (to_be_bytes 8 (u64_mod - 1 - version)) (length-to_le_bytes 8 collection_id)
            (length-to_be_bytes 8 (u64_mod - 1 - version)),
        length-append (slot_bytes slot) (encode_groups (length key) key),
        enough key,
        filled-length key h,
      ))

  encoded-long :
      (checks : Bool)
      → is_empty key ≡ false
      → debug_assert {E = Error} checks (ltb 16 (length encoded)) ≡ ok tt
  encoded-long checks h = debug_assert-true checks (ltb 16 (length encoded)) (encoded-longer h)

  pub mvcc_key-encoded : is_empty key ≡ false → mvcc_key collection_id slot key version ≡ ok encoded
  unfolding mvcc_key
  mvcc_key-encoded h = rw h refl

-- Reading back the key of a version, of a key that is not empty and a slot that fits u32, gives the
-- key and the slot.
pub revert_mvcc_key-mvcc_key :
    (checks : Bool) (collection_id : ℕ) (slot : Option ℕ) (key : Bytes) (version : ℕ)
    → is_empty key ≡ false
    → unwrap_or slot 0 < 2 ^ 32
    → (mvcc_key collection_id slot key version >>= λ bs. revert_mvcc_key checks bs (is_some slot))
      ≡ ok (key, slot)
unfolding revert_mvcc_key
revert_mvcc_key-mvcc_key checks collection_id slot key version filled fits =
    rw (mvcc_key-encoded collection_id slot key version filled) (
      rw
        (
          encoded-long collection_id slot key version checks filled,
          user_part-encoded collection_id slot key version,
          split_slot-slot_bytes checks slot (encode_groups (length key) key) fits,
        )
        (revert_user_key-encoded checks slot key))
