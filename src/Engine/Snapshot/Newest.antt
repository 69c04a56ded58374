-- ===== src/Engine/Snapshot/Newest.antt =====
-- A read of src/server/src/node/engine/group.rs finds the newest version.
use Prim.Native.Nat.{Ordering}
use engula.Engine.Keys.{data_value, is_empty, to_le_bytes, tombstone}
use engula.Engine.Keys.Lex.{Ordering-cases, lex}
use engula.Engine.Keys.RoundTrip.{encoded}
use engula.Engine.Snapshot.{DbItem, bytes_eq}
use engula.Engine.Snapshot.Versions.{
  bytes_eq_iff, IsBefore, IsOrdered, IsStorable, Version, newer, newest,
}
use engula.Meta.{Bytes}
use engula.Prelude.{
  arith, inl, inr, All, Bool, Bool-cases, List, Option, [], ap, false, if◌then◌else◌, leb, length,
  none, not, refl, retain, some, take, true, u64_mod, ℕ, ◌&&◌, ◌-◌, ◌∷◌, ◌≡◌,
}
use engula.Engine.Keys.Order.{lex-encoded}

abbrev pub value_bytes : Option Bytes → Bytes
value_bytes none = tombstone
value_bytes (some v) = data_value v

abbrev pub reaches : Ordering → Bool
reaches Ordering.lt = false
reaches _ = true

-- The bytes of the key of a version.
unfoldable pub stored_key : ℕ → Option ℕ → Bytes → ℕ → Bytes
stored_key collection_id slot key version = encoded collection_id slot key version

-- What the database has for a version in a collection and slot.
abbrev pub stored : ℕ → Option ℕ → Version → DbItem
stored collection_id slot v =
    some (stored_key collection_id slot v.key v.version, value_bytes v.value)

-- Nothing, or an item of another collection, is next.
abbrev pub ends_collection : ℕ → List DbItem → Bool
ends_collection collection_id [] = true
ends_collection collection_id (none ∷ _) = false
ends_collection collection_id (some (key, _) ∷ _) =
    leb 8 (length key) && not (bytes_eq (take 8 key) (to_le_bytes 8 collection_id))

-- The versions from a key on.
abbrev pub from_key : Bytes → List Version → List Version
from_key key = retain (λ v. reaches (lex v.key key))

pub All-retain :
    {A : Type 0} (P : A → Type 0) (p : A → Bool) (xs : List A) → All P xs → All P (retain p xs)
All-retain P p [] h = tt
All-retain P p (x ∷ xs) h = elim (Bool-cases (p x)) [
  | inl kept ↦ rw kept (h.0, All-retain P p xs h.1)
  | inr dropped ↦ rw dropped (All-retain P p xs h.1)
]

pub retain-IsOrdered :
    (p : Version → Bool) (vs : List Version) → IsOrdered vs → IsOrdered (retain p vs)
retain-IsOrdered p [] h = tt
retain-IsOrdered p (v ∷ vs) h = elim (Bool-cases (p v)) [
  | inl kept ↦ rw kept (All-retain (IsBefore v) p vs h.0, retain-IsOrdered p vs h.1)
  | inr dropped ↦ rw dropped (retain-IsOrdered p vs h.1)
]

pub not_equal : (xs ys : Bytes) → lex xs ys ≡ Ordering.lt → bytes_eq xs ys ≡ false
not_equal xs ys less = elim (Bool-cases (bytes_eq xs ys)) [
  | inl equal ↦ cc (bytes_eq_iff xs ys equal)
  | inr unequal ↦ unequal
]

-- The versions in front of the key are none of it.
pub newest-from_key :
    (key : Bytes) (vs : List Version) → newest key (from_key key vs) ≡ newest key vs
newest-from_key key [] = refl
newest-from_key key (v ∷ vs) = elim (Ordering-cases (lex v.key key)) [
  | inl less ↦ rw (less, not_equal v.key key less) (newest-from_key key vs)
  | inr (inl same) ↦
      rw same (ap (λ n. if bytes_eq v.key key then newer v n else n) (newest-from_key key vs))
  | inr (inr more) ↦
      rw more (ap (λ n. if bytes_eq v.key key then newer v n else n) (newest-from_key key vs))
]

-- A key is sought at its newest possible version, which no stored version of it comes before.
reaches-lex :
    (collection_id : ℕ) (slot : Option ℕ) (key : Bytes) (v : Version)
    → is_empty key ≡ false
    → IsStorable v
    → reaches (
        lex
          (stored_key collection_id slot v.key v.version)
          (stored_key collection_id slot key (u64_mod - 1)))
      ≡ reaches (lex v.key key)
unfolding stored_key
reaches-lex collection_id slot key v f h =
    rw (lex-encoded collection_id slot v.key key v.version (u64_mod - 1) h.0 f h.1 (omega arith))
      (elim (Ordering-cases (lex v.key key)) [
        | inl less ↦ rw less refl
        | inr (inl same) ↦ rw same (ground (arith, h.1))
        | inr (inr more) ↦ rw more refl
      ])

pub retain-from_key :
    (collection_id : ℕ) (slot : Option ℕ) (key : Bytes) (vs : List Version)
    → is_empty key ≡ false
    → All IsStorable vs
    → retain
        (λ v. reaches (
          lex
            (stored_key collection_id slot v.key v.version)
            (stored_key collection_id slot key (u64_mod - 1))))
        vs
      ≡ from_key key vs
retain-from_key collection_id slot key [] f h = refl
retain-from_key collection_id slot key (v ∷ vs) f h =
    rw (reaches-lex collection_id slot key v f h.0) (
      ap (λ rest. if reaches (lex v.key key) then v ∷ rest else rest)
        (retain-from_key collection_id slot key vs f h.1))
