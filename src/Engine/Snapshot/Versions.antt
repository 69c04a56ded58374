-- ===== src/Engine/Snapshot/Versions.antt =====
-- The versions of keys that src/server/src/node/engine/group.rs stores, as an abstract sequence.
use engula.Engine.Keys.{is_empty}
use engula.Engine.Keys.Lex.{lex_refl, Ordering-cases, lex-eq, lex-gt, lex, then_compare}
use engula.Engine.Snapshot.{bytes_eq}
use engula.Meta.{Bytes}
use engula.Prelude.{
  All, Bool-cases, List, Option, [], arith, false, if◌then◌else◌, inl, inr, leb, none, refl, some,
  true, ℕ, ◌<◌, ◌^◌, ◌∷◌, ◌≡◌,
}
use mathlib.Core.Path.{subst}
use Prim.Native.Nat.{compare, Ordering}

pub record Version : Type 0 where
  pub key : Bytes
  pub version : ℕ
  pub value : Option Bytes

-- The newest version of a key.
abbrev pub newer : Version → Option Version → Option Version
newer v none = some v
newer v (some w) = if leb w.version v.version then some v else some w

abbrev pub newest : Bytes → List Version → Option Version
newest key [] = none
newest key (v ∷ vs) = let rest = newest key vs in if bytes_eq v.key key then newer v rest else rest

-- In the database, a version is before another one by its key, or as a newer version of that key.
abbrev pub IsBefore : Version → Version → Type 0
IsBefore v w = then_compare (lex v.key w.key) (compare w.version v.version) ≡ Ordering.lt

abbrev pub IsOrdered : List Version → Type 0
IsOrdered [] = Unit
IsOrdered (v ∷ vs) = All (IsBefore v) vs × IsOrdered vs

abbrev pub IsStorable : Version → Type 0
IsStorable v = (is_empty v.key ≡ false) × (v.version < 2 ^ 64)

pub lex_trans :
    (xs ys zs : Bytes) → lex xs ys ≡ Ordering.lt → lex ys zs ≡ Ordering.lt → lex xs zs ≡ Ordering.lt
lex_trans [] [] zs a b = cc
lex_trans [] (y ∷ ys) [] a b = cc
lex_trans [] (y ∷ ys) (z ∷ zs) a b = refl
lex_trans (x ∷ xs) [] zs a b = cc
lex_trans (x ∷ xs) (y ∷ ys) [] a b = cc
lex_trans (x ∷ xs) (y ∷ ys) (z ∷ zs) a b = ground (arith, a, b, lex_trans xs ys zs)

pub bytes_eq-lex : (xs ys : Bytes) → lex xs ys ≡ Ordering.eq → bytes_eq xs ys ≡ true
bytes_eq-lex [] [] h = refl
bytes_eq-lex [] (y ∷ ys) h = cc
bytes_eq-lex (x ∷ xs) [] h = cc
bytes_eq-lex (x ∷ xs) (y ∷ ys) h = ground (arith, h, bytes_eq-lex xs ys)

pub bytes_eq_iff : (xs ys : Bytes) → bytes_eq xs ys ≡ true → lex xs ys ≡ Ordering.eq
bytes_eq_iff [] [] h = refl
bytes_eq_iff [] (y ∷ ys) h = cc
bytes_eq_iff (x ∷ xs) [] h = cc
bytes_eq_iff (x ∷ xs) (y ∷ ys) h = ground (arith, h, bytes_eq_iff xs ys)

-- A key that is before another one is not that one, and so for all that come later.
pub newest-none :
    (key : Bytes) (vs : List Version)
    → All (λ w. lex key w.key ≡ Ordering.lt) vs
    → newest key vs ≡ none
newest-none key [] h = refl
newest-none key (v ∷ vs) h = elim (Bool-cases (bytes_eq v.key key)) [
  | inl same ↦ cc (bytes_eq_iff v.key key same, lex-gt key v.key h.0)
  | inr other ↦ rw other (newest-none key vs h.1)
]

later-key :
    (key : Bytes) (v w : Version)
    → lex key v.key ≡ Ordering.lt
    → IsBefore v w
    → lex key w.key ≡ Ordering.lt
later-key key v w h b = elim (Ordering-cases (lex v.key w.key)) [
  | inl less ↦ lex_trans key v.key w.key h less
  | inr (inl same) ↦ subst (λ k. lex key k ≡ Ordering.lt) (lex-eq v.key w.key same) h
  | inr (inr more) ↦ ground (arith, more, b)
]

pub later-keys :
    (key : Bytes) (v : Version) (vs : List Version)
    → lex key v.key ≡ Ordering.lt
    → All (IsBefore v) vs
    → All (λ w. lex key w.key ≡ Ordering.lt) vs
later-keys key v [] h b = tt
later-keys key v (w ∷ ws) h b = (later-key key v w h b.0, later-keys key v ws h b.1)

newer-newer :
    (v w : Version) (n : Option Version)
    → w.version < v.version
    → newer v n ≡ some v
    → newer v (newer w n) ≡ some v
newer-newer v w none h e = ground (arith, h)
newer-newer v w (some x) h e = elim (Bool-cases (leb x.version w.version)) [
  | inl older ↦ rw older (ground (arith, h))
  | inr later ↦ rw later e
]

-- Of one key, the version that is before another one is the newer one.
before-newer :
    (v w : Version) (key : Bytes)
    → lex v.key key ≡ Ordering.eq
    → lex w.key key ≡ Ordering.eq
    → IsBefore v w
    → w.version < v.version
before-newer v w key a b h =
    let same : lex v.key w.key ≡ Ordering.eq =
      rw (lex-eq v.key key a, lex-eq w.key key b) (lex_refl key) in
    ground (arith, same, h)

-- After a version, all others of its key are older.
pub newest-older :
    (v : Version) (key : Bytes) (vs : List Version)
    → lex v.key key ≡ Ordering.eq
    → All (IsBefore v) vs
    → newer v (newest key vs) ≡ some v
newest-older v key [] same b = refl
newest-older v key (w ∷ ws) same b = elim (Bool-cases (bytes_eq w.key key)) [
  | inl equal ↦ rw equal (
      newer-newer v w (newest key ws) (before-newer v w key same (bytes_eq_iff w.key key equal) b.0)
        (newest-older v key ws same b.1))
  | inr unequal ↦ rw unequal (newest-older v key ws same b.1)
]
