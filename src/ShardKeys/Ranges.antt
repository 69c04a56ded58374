-- ===== src/ShardKeys/Ranges.antt =====
-- The ranges of src/api/src/shard.rs cut at a key.
use engula.Prelude.{Bool-cases, inl, inr, [], arith, false, refl, true, ◌&&◌, ◌||◌, ◌∷◌, ◌≡◌}
use engula.ShardKeys.{in_range, is_empty, key_leb}
use engula.Meta.{Bytes}

key_leb_trans :
    (xs ys zs : Bytes) → key_leb xs ys ≡ true → key_leb ys zs ≡ true → key_leb xs zs ≡ true
key_leb_trans [] ys zs a b = refl
key_leb_trans (x ∷ xs) [] zs a b = cc
key_leb_trans (x ∷ xs) (y ∷ ys) [] a b = cc
key_leb_trans (x ∷ xs) (y ∷ ys) (z ∷ zs) a b = ground (arith, a, b, key_leb_trans xs ys zs)

pub key_leb_total : (xs ys : Bytes) → key_leb xs ys ≡ false → key_leb ys xs ≡ true
key_leb_total [] ys h = cc
key_leb_total (x ∷ xs) [] h = refl
key_leb_total (x ∷ xs) (y ∷ ys) h = ground (arith, h, key_leb_total xs ys)

start_of : (start end cut : Bytes) → in_range start end cut ≡ true → key_leb start cut ≡ true
start_of start end cut h = ground (arith, h)

-- Where a range is cut at a key in it that is not empty, a key of the range is in exactly
-- one of the two parts, and no other key is in one of them.
pub in_range-cut :
    (start cut end key : Bytes)
    → in_range start end cut ≡ true
    → is_empty cut ≡ false
    → (in_range start end key ≡ (in_range start cut key || in_range cut end key))
      × ((in_range start cut key && in_range cut end key) ≡ false)
in_range-cut start cut end key within filled = elim (Bool-cases (key_leb cut key)) [
  | inl above ↦ ground (
    arith,
    above,
    filled,
    within,
    key_leb_trans start cut key (start_of start end cut within) above,
  )
  | inr below ↦ elim (Bool-cases (key_leb end key)) [
    | inl past ↦ ground (
      arith,
      below,
      past,
      filled,
      within,
      key_leb_trans end key cut past (key_leb_total cut key below),
    )
    | inr inside ↦ ground (arith, below, inside, filled, within)
  ]
]
