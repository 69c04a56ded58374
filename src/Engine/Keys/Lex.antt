-- ===== src/Engine/Keys/Lex.antt =====
-- The lexicographic order of byte strings, in which the database of
-- src/server/src/node/engine/group.rs keeps its keys.
use engula.Meta.{Bytes}
use engula.Prelude.{
  inl, inr, ◌⊎◌, [], arith, drop, length, refl, suc, take, zero, ℕ, ◌++◌, ◌∷◌, ◌≡◌,
}
use Prim.Native.Nat.{compare, Ordering}

-- The first comparison decides, unless it finds no difference.
abbrev pub then_compare : Ordering → Ordering → Ordering
then_compare Ordering.lt o = Ordering.lt
then_compare Ordering.eq o = o
then_compare Ordering.gt o = Ordering.gt

abbrev pub lex : Bytes → Bytes → Ordering
lex [] [] = Ordering.eq
lex [] (y ∷ ys) = Ordering.lt
lex (x ∷ xs) [] = Ordering.gt
lex (x ∷ xs) (y ∷ ys) = then_compare (compare x y) (lex xs ys)

pub then_compare_assoc :
    (a b c : Ordering) → then_compare (then_compare a b) c ≡ then_compare a (then_compare b c)
then_compare_assoc Ordering.lt b c = refl
then_compare_assoc Ordering.eq b c = refl
then_compare_assoc Ordering.gt b c = refl

pub lex_refl : (xs : Bytes) → lex xs xs ≡ Ordering.eq
lex_refl [] = refl
lex_refl (x ∷ xs) = ground (arith, lex_refl xs)

-- A common front does not matter.
pub lex-append-same : (xs ys zs : Bytes) → lex (xs ++ ys) (xs ++ zs) ≡ lex ys zs
lex-append-same [] ys zs = refl
lex-append-same (x ∷ xs) ys zs = ground (arith, lex-append-same xs ys zs)

-- Fronts of one length are compared before what follows them.
pub lex-append :
    (xs ys us vs : Bytes)
    → length xs ≡ length ys
    → lex (xs ++ us) (ys ++ vs) ≡ then_compare (lex xs ys) (lex us vs)
lex-append [] [] us vs h = refl
lex-append [] (y ∷ ys) us vs h = absurd (omega (arith, h))
lex-append (x ∷ xs) [] us vs h = absurd (omega (arith, h))
lex-append (x ∷ xs) (y ∷ ys) us vs h = ground (
  arith,
  then_compare_assoc (compare x y) (lex xs ys) (lex us vs),
  lex-append xs ys us vs (omega (arith, h)),
)

-- Strings are compared part by part.
pub lex-take-drop :
    (n : ℕ) (xs ys : Bytes)
    → lex xs ys ≡ then_compare (lex (take n xs) (take n ys)) (lex (drop n xs) (drop n ys))
lex-take-drop zero xs ys = refl
lex-take-drop (suc n) [] [] = refl
lex-take-drop (suc n) [] (y ∷ ys) = refl
lex-take-drop (suc n) (x ∷ xs) [] = refl
lex-take-drop (suc n) (x ∷ xs) (y ∷ ys) = ground (
  arith,
  lex-take-drop n xs ys,
  then_compare_assoc (compare x y) (lex (take n xs) (take n ys)) (lex (drop n xs) (drop n ys)),
)

pub lex-eq : (xs ys : Bytes) → lex xs ys ≡ Ordering.eq → xs ≡ ys
lex-eq [] [] h = refl
lex-eq [] (y ∷ ys) h = cc
lex-eq (x ∷ xs) [] h = cc
lex-eq (x ∷ xs) (y ∷ ys) h = ground (arith, h, lex-eq xs ys)

pub lex-gt : (xs ys : Bytes) → lex xs ys ≡ Ordering.lt → lex ys xs ≡ Ordering.gt
lex-gt [] [] h = cc
lex-gt [] (y ∷ ys) h = refl
lex-gt (x ∷ xs) [] h = cc
lex-gt (x ∷ xs) (y ∷ ys) h = ground (arith, h, lex-gt xs ys)

pub Ordering-cases : (o : Ordering) → (o ≡ Ordering.lt) ⊎ (o ≡ Ordering.eq) ⊎ (o ≡ Ordering.gt)
Ordering-cases Ordering.lt = inl refl
Ordering-cases Ordering.eq = inr (inl refl)
Ordering-cases Ordering.gt = inr (inr refl)

pub lex-lt : (xs ys : Bytes) → lex xs ys ≡ Ordering.gt → lex ys xs ≡ Ordering.lt
lex-lt [] [] h = cc
lex-lt [] (y ∷ ys) h = cc
lex-lt (x ∷ xs) [] h = refl
lex-lt (x ∷ xs) (y ∷ ys) h = ground (arith, h, lex-lt xs ys)

pub lex-eq_sym : (xs ys : Bytes) → lex xs ys ≡ Ordering.eq → lex ys xs ≡ Ordering.eq
lex-eq_sym xs ys h = rw (lex-eq xs ys h) (lex_refl ys)
