-- ===== src/HashMap.antt =====
-- The hash maps of the program: association lists with one entry for a key, and the laws that the
-- code relies on.
use Prim.Native.String.{String}
use text.Mathlib.Text.{◌==◌ as str_eq}
use engula.Prelude.{
  some_injective, ◌≢◌, ◌⊎◌, ◌&&◌, Bool-cases, ap, arith, false, inl, inr, refl, sym, ◌∙◌, ==_iff,
  Bool, List, Option, [], if◌then◌else◌, none, some, true, ℕ, ◌==◌, ◌↔◌, ◌∷◌, ◌≡◌,
}
use mathlib.Core.Path.{ap₂}
use text.Mathlib.TextEquality.{eq_iff}

-- Keys that can be compared.
pub record KeyEq (K : Type 0) : Type 0 where
  pub beq : K → K → Bool
  pub beq_iff : (a b : K) → (beq a b ≡ true) ↔ (a ≡ b)

instance abbrev pub nat_key : KeyEq ℕ
nat_key = record { beq = ◌==◌; beq_iff = ==_iff }

instance abbrev pub string_key : KeyEq String
string_key = record { beq = str_eq; beq_iff = eq_iff }

both : (b c : Bool) → (b && c) ≡ true → (b ≡ true) × (c ≡ true)
both true true h = (refl, refl)
both true false h = cc
both false c h = cc

both_back : (b c : Bool) → b ≡ true → c ≡ true → (b && c) ≡ true
both_back b c h h₁ = rw (h, h₁) refl

module _ {K L : Type 0} ⦃first : KeyEq K⦄ ⦃second : KeyEq L⦄ where
  abbrev pub pair_beq : K × L → K × L → Bool
  pair_beq (a, b) (c, d) = first.beq a c && second.beq b d

  pub pair_beq_iff : (a b : K × L) → (pair_beq a b ≡ true) ↔ (a ≡ b)
  pair_beq_iff (a, b) (c, d) = (
    λ h.
        let parts = both (first.beq a c) (second.beq b d) h in
        ap₂ (λ x y. (x, y)) ((first.beq_iff a c).0 parts.0) ((second.beq_iff b d).0 parts.1),
    λ e.
        both_back (first.beq a c) (second.beq b d) ((first.beq_iff a c).1 (ap (λ p. p.0) e))
          ((second.beq_iff b d).1 (ap (λ p. p.1) e)),
  )

  instance abbrev pub pair_key : KeyEq (K × L)
  pair_key = record { beq = pair_beq; beq_iff = pair_beq_iff }

abbrev pub Map : Type 0 → Type 0 → Type 0
Map K V = List (K × V)

module _ {K : Type 0} ⦃key : KeyEq K⦄ where
  beq-same : (i k j : K) → key.beq i k ≡ true → key.beq i j ≡ key.beq k j
  beq-same i k j h = ap (λ x. key.beq x j) ((key.beq_iff i k).0 h)

  beq-other : (i k j : K) → key.beq i k ≡ false → key.beq i j ≡ true → key.beq k j ≡ false
  beq-other i k j unlike here = elim (Bool-cases (key.beq k j)) [
    | inl same ↦
        cc (unlike, (key.beq_iff i k).1 ((key.beq_iff i j).0 here ∙ sym ((key.beq_iff k j).0 same)))
    | inr other ↦ other
  ]

after_same :
    {V : Type 0} {x : Option V} (y z : Option V) (b : Bool)
    → x ≡ (if b then none else y)
    → x ≡ (if b then none else if b then z else y)
after_same y z true h = h
after_same y z false h = h

module _ {K V : Type 0} ⦃key : KeyEq K⦄ where
  abbrev pub get : K → Map K V → Option V
  get k [] = none
  get k ((j, v) ∷ m) = if key.beq j k then some v else get k m

  abbrev pub remove : K → Map K V → Map K V
  remove k [] = []
  remove k ((j, v) ∷ m) = let rest = remove k m in if key.beq j k then rest else (j, v) ∷ rest

  abbrev pub insert : K → V → Map K V → Map K V
  insert k v m = (k, v) ∷ remove k m

  pub get-remove :
      (j k : K) (m : Map K V) → get j (remove k m) ≡ (if key.beq k j then none else get j m)
  get-remove j k [] = ground arith
  get-remove j k ((i, v) ∷ m) = elim (Bool-cases (key.beq i k)) [
    | inl same ↦
        rw (same, beq-same i k j same)
          (after_same (get j m) (some v) (key.beq k j) (get-remove j k m))
    | inr unlike ↦ elim (Bool-cases (key.beq i j)) [
      | inl here ↦ rw (unlike, here, beq-other i k j unlike here) refl
      | inr elsewhere ↦ rw (unlike, elsewhere) (get-remove j k m)
    ]
  ]

  pub get-insert :
      (j k : K) (v : V) (m : Map K V)
      → get j (insert k v m) ≡ (if key.beq k j then some v else get j m)
  get-insert j k v m = ground (arith, get-remove j k m)

-- What an entry of a map was before, and what is left of it.
module _ {K V : Type 0} ⦃key : KeyEq K⦄ where
  pub inserted :
      (j k : K) (v : V) (m : Map K V) {w : V}
      → get j (insert k v m) ≡ some w
      → ((k ≡ j) × (v ≡ w)) ⊎ ((k ≢ j) × (get j m ≡ some w))
  inserted j k v m h = elim (Bool-cases (key.beq k j)) [
    | inl same ↦ inl (
      (key.beq_iff k j).0 same,
      some_injective
          (sym (ap (λ b. if b then some v else get j m) same) ∙ sym (get-insert j k v m) ∙ h),
    )
    | inr unlike ↦ inr (
      λ e. cc (unlike, (key.beq_iff k j).1 e),
      sym (ap (λ b. if b then some v else get j m) unlike) ∙ sym (get-insert j k v m) ∙ h,
    )
  ]

  pub removed :
      (j k : K) (m : Map K V) {w : V} → get j (remove k m) ≡ some w → (k ≢ j) × (get j m ≡ some w)
  removed j k m h = elim (Bool-cases (key.beq k j)) [
    | inl same ↦ cc (sym (ap (λ b. if b then none else get j m) same) ∙ sym (get-remove j k m) ∙ h)
    | inr unlike ↦ (
      λ e. cc (unlike, (key.beq_iff k j).1 e),
      sym (ap (λ b. if b then none else get j m) unlike) ∙ sym (get-remove j k m) ∙ h,
    )
  ]

  pub kept : (j k : K) (v : V) (m : Map K V) → k ≢ j → get j (insert k v m) ≡ get j m
  kept j k v m unlike = elim (Bool-cases (key.beq k j)) [
    | inl same ↦ absurd (unlike ((key.beq_iff k j).0 same))
    | inr apart ↦ get-insert j k v m ∙ ap (λ b. if b then some v else get j m) apart
  ]

  pub put_in : (k : K) (v : V) (m : Map K V) → get k (insert k v m) ≡ some v
  put_in k v m =
      get-insert k k v m ∙ ap (λ b. if b then some v else get k m) ((key.beq_iff k k).1 refl)

  pub left_in : (j k : K) (m : Map K V) → k ≢ j → get j (remove k m) ≡ get j m
  left_in j k m unlike = elim (Bool-cases (key.beq k j)) [
    | inl same ↦ absurd (unlike ((key.beq_iff k j).0 same))
    | inr apart ↦ get-remove j k m ∙ ap (λ b. if b then none else get j m) apart
  ]
