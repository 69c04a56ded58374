-- ===== src/Engine/Snapshot/Finding.antt =====
-- `GroupEngine::get` of src/server/src/node/engine/group.rs against the versions in the database.
use engula.Engine.Keys.{is_empty, revert_mvcc_key, to_le_bytes}
use engula.Engine.Keys.Lex.{Ordering-cases, lex-eq_sym, lex-lt, lex, lex_refl}
use engula.Engine.Keys.RoundTrip.{mvcc_key-encoded, revert_mvcc_key-mvcc_key}
use engula.Engine.Snapshot.{
  entry_value, next_mvcc_entry, value_of, bytes_eq, is_valid_key, next_key, DbItem, MvccEntry,
  Snapshot, new_entry, parse_item, target,
}
use engula.Engine.Snapshot.Newest.{
  not_equal, reaches, ends_collection, stored, stored_key, value_bytes,
}
use engula.Engine.Snapshot.Versions.{
  IsBefore, later-keys, newest-none, newest-older, IsOrdered, IsStorable, newest, Version,
  bytes_eq-lex,
}
use engula.Meta.{Bytes}
use engula.Prelude.{
  inl, inr, All, map, ◌++◌, [], arith, leb, not, ◌&&◌, Bool, List, Option, ap, false, is_some,
  length, ltb, none, ok, refl, some, sym, take, true, unwrap_or, ℕ, ◌<◌, ◌>>=◌, ◌^◌, ◌∷◌, ◌≡◌,
}
use engula.Error.{Result}
use engula.Engine.Snapshot.Reads.{newest_of, read_one}
use Prim.Native.Nat.{Ordering}

abbrev pub newest_value : Option Version → Option Bytes
newest_value none = none
newest_value (some v) = v.value

-- The entry that a stored version is parsed to.
entry_of : ℕ → Option ℕ → Version → MvccEntry
entry_of collection_id slot v = record {
  key = stored_key collection_id slot v.key v.version;
  slot = slot;
  user_key = v.key;
  value = value_bytes v.value;
}

-- A snapshot for one key.
abbrev pub snapshot_of : ℕ → Option ℕ → Bytes → Snapshot
snapshot_of collection_id slot key = record {
  collection_id = collection_id;
  range = some (target key);
  expect_slot = slot;
}

other_parts : (n : ℕ) (b : Bool) → (leb 8 n && not b) ≡ true → (ltb n 8 ≡ false) × (b ≡ false)
other_parts n true h = (ground (arith, h), ground (arith, h))
other_parts n false h = (ground (arith, h), refl)

entry_value-bytes : (checks : Bool) (o : Option Bytes) → entry_value checks (value_bytes o) ≡ ok o
unfolding entry_value
entry_value-bytes true none = refl
entry_value-bytes false none = refl
entry_value-bytes true (some v) = refl
entry_value-bytes false (some v) = refl

newest-first :
    (key : Bytes) (v : Version) (vs : List Version)
    → lex v.key key ≡ Ordering.eq
    → All (IsBefore v) vs
    → newest key (v ∷ vs) ≡ some v
newest-first key v vs same b = rw (bytes_eq-lex v.key key same) (newest-older v key vs same b)

newest-absent :
    (key : Bytes) (v : Version) (vs : List Version)
    → lex v.key key ≡ Ordering.gt
    → All (IsBefore v) vs
    → newest key (v ∷ vs) ≡ none
newest-absent key v vs more b =
    newest-none key (v ∷ vs) (lex-lt v.key key more, later-keys key v vs (lex-lt v.key key more) b)

module _ (checks : Bool) (collection_id : ℕ) (slot : Option ℕ)
    (fits : unwrap_or slot 0 < 2 ^ 32) where
  revert-stored_key :
      (v : Version)
      → is_empty v.key ≡ false
      → revert_mvcc_key checks (stored_key collection_id slot v.key v.version) (is_some slot)
        ≡ ok (v.key, slot)
  unfolding stored_key
  revert-stored_key v h =
      rw
        (sym (
          ap (λ m. m >>= λ bs. revert_mvcc_key checks bs (is_some slot))
            (mvcc_key-encoded collection_id slot v.key v.version h)))
        (revert_mvcc_key-mvcc_key checks collection_id slot v.key v.version h fits)

  new_entry-stored :
      (v : Version)
      → is_empty v.key ≡ false
      → new_entry checks
          (is_some slot)
          (stored_key collection_id slot v.key v.version)
          (value_bytes v.value)
        ≡ ok (entry_of collection_id slot v)
  unfolding new_entry entry_of
  new_entry-stored v h = rw (revert-stored_key v h) refl

  stored_key-long :
      (key : Bytes) (n : ℕ) → ltb (length (stored_key collection_id slot key n)) 8 ≡ false
  unfolding stored_key
  stored_key-long key n = ground arith

  stored_key-front :
      (key : Bytes) (n : ℕ)
      → take 8 (stored_key collection_id slot key n) ≡ to_le_bytes 8 collection_id
  unfolding stored_key
  stored_key-front key n = refl

  parse-stored :
      (key : Bytes) (v : Version)
      → is_empty v.key ≡ false
      → parse_item checks (snapshot_of collection_id slot key) (stored collection_id slot v)
        ≡ ok (some (entry_of collection_id slot v))
  unfolding parse_item
  parse-stored key v h =
      rw
        (
          stored_key-long v.key v.version,
          stored_key-front v.key v.version,
          bytes_eq-lex (to_le_bytes 8 collection_id) (to_le_bytes 8 collection_id)
              (lex_refl (to_le_bytes 8 collection_id)),
          new_entry-stored v h,
        )
        refl

  parse-other :
      (key k value : Bytes) (rest : List DbItem)
      → ends_collection collection_id (some (k, value) ∷ rest) ≡ true
      → parse_item checks (snapshot_of collection_id slot key) (some (k, value)) ≡ ok none
  unfolding parse_item
  parse-other key k value rest h =
      let parts = other_parts (length k) (bytes_eq (take 8 k) (to_le_bytes 8 collection_id)) h in
      rw (parts.0, parts.1) refl

  next_key-stored :
      (key : Bytes) (v : Version) (items : List DbItem)
      → is_empty v.key ≡ false
      → next_key checks
          (snapshot_of collection_id slot key)
          (stored collection_id slot v ∷ items)
          none
          none
        ≡ next_key checks
            (snapshot_of collection_id slot key)
            items
            (some (entry_of collection_id slot v))
            none
  unfolding next_key
  next_key-stored key v items h = rw (parse-stored key v h) refl

  next_key-found :
      (key : Bytes) (e : MvccEntry) (items : List DbItem)
      → bytes_eq key e.user_key ≡ true
      → next_key checks (snapshot_of collection_id slot key) items (some e) none
        ≡ ok (
            some (record { db_iter = items; current_key = some e.user_key; cached_entry = some e }))
  unfolding next_key is_valid_key
  next_key-found key e [] h = rw (h, next_key) refl
  next_key-found key e (item ∷ items) h = rw (h, next_key) refl

  next_key-consumed :
      (key : Bytes) (e : MvccEntry) (items : List DbItem)
      → bytes_eq key e.user_key ≡ false
      → next_key checks (snapshot_of collection_id slot key) items (some e) none ≡ ok none
  unfolding next_key is_valid_key
  next_key-consumed key e [] h = rw (h, next_key) refl
  next_key-consumed key e (item ∷ items) h = rw (h, next_key) refl

  next_key-ended :
      (key : Bytes) (others : List DbItem)
      → ends_collection collection_id others ≡ true
      → next_key checks (snapshot_of collection_id slot key) others none none ≡ ok none
  unfolding next_key
  next_key-ended key [] h = refl
  next_key-ended key (none ∷ rest) h = cc
  next_key-ended key (some (k, value) ∷ rest) h = rw (parse-other key k value rest h) refl

  -- The value that is read from what the database gives.
  unfoldable pub read_from : Bytes → List DbItem → Result (Option Bytes)
  read_from key items =
      next_key checks (snapshot_of collection_id slot key) items none none
      >>= read_one checks (snapshot_of collection_id slot key)

  read_entry :
      (key : Bytes) (v : Version) (items : List DbItem)
      → bytes_eq key v.key ≡ true
      → read_one checks (snapshot_of collection_id slot key) (
          some (record {
            db_iter = items;
            current_key = some v.key;
            cached_entry = some (entry_of collection_id slot v);
          }))
        ≡ ok v.value
  unfolding entry_of read_one newest_of next_mvcc_entry value_of
  read_entry key v items h =
      rw (bytes_eq-lex v.key v.key (lex_refl v.key)) (entry_value-bytes checks v.value)

  read-head :
      (key : Bytes) (v : Version) (items : List DbItem)
      → is_empty v.key ≡ false
      → lex v.key key ≡ Ordering.eq
      → read_from key (stored collection_id slot v ∷ items) ≡ ok v.value
  unfolding read_from entry_of
  read-head key v items filled same =
      let equal : bytes_eq key v.key ≡ true = bytes_eq-lex key v.key (lex-eq_sym v.key key same) in
      rw
        (
          next_key-stored key v items filled,
          next_key-found key (entry_of collection_id slot v) items equal,
        )
        (read_entry key v items equal)

  skip-head :
      (key : Bytes) (v : Version) (items : List DbItem)
      → is_empty v.key ≡ false
      → lex v.key key ≡ Ordering.gt
      → read_from key (stored collection_id slot v ∷ items) ≡ ok none
  unfolding read_from entry_of read_one
  skip-head key v items filled more =
      rw
        (
          next_key-stored key v items filled,
          next_key-consumed key (entry_of collection_id slot v) items
              (not_equal key v.key (lex-lt v.key key more)),
        )
        refl

  -- Of ordered versions that the key does not come after, the first one is read if it is of the key.
  pub read_from-versions :
      (key : Bytes) (vs : List Version) (others : List DbItem)
      → IsOrdered vs
      → All IsStorable vs
      → All (λ v. reaches (lex v.key key) ≡ true) vs
      → ends_collection collection_id others ≡ true
      → read_from key (map (stored collection_id slot) vs ++ others)
        ≡ ok (newest_value (newest key vs))
  unfolding read_from read_one
  read_from-versions key [] others o st ahead e = rw (next_key-ended key others e) refl
  read_from-versions key (v ∷ vs) others o st ahead e = elim (Ordering-cases (lex v.key key)) [
    | inl less ↦ ground (arith, less, ahead.0)
    | inr (inl same) ↦
        rw (read-head key v (map (stored collection_id slot) vs ++ others) (st.0.0) same)
          (ap (λ o. ok (newest_value o)) (sym (newest-first key v vs same (o.0))))
    | inr (inr more) ↦
        rw (skip-head key v (map (stored collection_id slot) vs ++ others) (st.0.0) more)
          (ap (λ o. ok (newest_value o)) (sym (newest-absent key v vs more (o.0))))
  ]
