-- ===== src/Prelude/Outcomes.antt =====
-- What a call of the program ends in: a value, an error value, or a panic. Arithmetic on u64 and
-- the debug assertions depend on the build profile, which is the argument `checks`.
use Prim.Native.Nat.{ℕ, ◌+◌, ◌%◌, ◌^◌}
use mathlib.Core.Path.{◌≡◌, refl, ap}
use mathlib.Core.Bool.{Bool, true, false}
use mathlib.Core.Option.{Option, none, some}
use engula.Prelude.Tests.{ltb, if◌then◌else◌, on_option}

-- Why the program panics.
pub data Panic : Type 0 where
  assertion : Panic
  overflow : Panic
  unwrap_none : Panic
  unreachable : Panic
  unsupported : Panic
  in_joint_state : Panic
  shard_exists : Panic
  out_of_bounds : Panic
  entry_hole : Panic
  missing_entries : Panic
  low_above_high : Panic
  high_out_of_bound : Panic
  unwrap_err : Panic
  called_twice : Panic
  division_by_zero : Panic

pub data Outcome {ℓ κ} (E : Type ℓ) (A : Type κ) : Type (ℓ ⊔ κ) where
  ok : A → Outcome E A
  err : E → Outcome E A
  panic : Panic → Outcome E A

infixl 5 ◌>>=◌ ◌>>◌
abbrev pub ◌>>=◌ {ℓ κ μ} :
    {E : Type ℓ} {A : Type κ} {B : Type μ} → Outcome E A → (A → Outcome E B) → Outcome E B
ok a >>= f = f a
err e >>= f = err e
panic p >>= f = panic p

abbrev pub ◌>>◌ {ℓ κ μ} :
    {E : Type ℓ} {A : Type κ} {B : Type μ} → Outcome E A → Outcome E B → Outcome E B
m >> k = m >>= λ _. k

abbrev pub u64_mod : ℕ
u64_mod = 2 ^ 64

module _ {ℓ} {E : Type ℓ} where
  -- `assert!`
  abbrev pub assert : Bool → Outcome E (Unit {0})
  assert true = ok tt
  assert false = panic assertion

  -- `debug_assert!`
  abbrev pub debug_assert : Bool → Bool → Outcome E (Unit {0})
  debug_assert true b = assert b
  debug_assert false b = ok tt

  -- `a + b` on u64: a checked build panics where it does not fit, another one wraps.
  abbrev pub add_u64 : Bool → ℕ → ℕ → Outcome E ℕ
  add_u64 checks a b =
      if ltb (a + b) u64_mod
      then ok (a + b)
      else if checks
      then panic overflow
      else ok ((a + b) % u64_mod)

  -- `Option::unwrap` and `Option::expect`
  abbrev pub unwrap {κ} : {A : Type κ} → Option A → Outcome E A
  unwrap none = panic unwrap_none
  unwrap (some a) = ok a

  pub >>=_assoc {κ μ ν} :
      {A : Type κ} {B : Type μ} {C : Type ν} (m : Outcome E A) (f : A → Outcome E B)
      (g : B → Outcome E C)
      → (m >>= f >>= g) ≡ (m >>= λ a. f a >>= g)
  >>=_assoc (ok a) f g = refl
  >>=_assoc (err e) f g = refl
  >>=_assoc (panic p) f g = refl

-- A chain that ends in a value has a value at its first call.
pub ok_parts {ℓ κ μ} :
    {E : Type ℓ} {A : Type κ} {B : Type μ} (call : Outcome E A) (next : A → Outcome E B) {out : B}
    → (call >>= next) ≡ ok out
    → (mid : A) × (call ≡ ok mid) × (next mid ≡ ok out)
ok_parts (ok mid) next done = (mid, refl, done)
ok_parts (panic p) next done = cc
ok_parts (err e) next done = cc

pub ok-injective {ℓ κ} :
    {E : Type ℓ} {A : Type κ} {a b : A} → ◌≡◌ {A = Outcome E A} (ok a) (ok b) → a ≡ b
ok-injective h = cc

-- `Option::ok_or_else`
abbrev pub ok_or {ℓ κ} : {E : Type ℓ} {A : Type κ} → E → Option A → Outcome E A
ok_or e none = err e
ok_or e (some a) = ok a

pub ok_or-ok {ℓ κ} :
    {E : Type ℓ} {A : Type κ} (e : E) (o : Option A) {a : A} → ok_or e o ≡ ok a → o ≡ some a
ok_or-ok e none h = cc
ok_or-ok e (some x) h = ap some (ok-injective h)

-- In a loop on fuel, whose result is `none` where it has not ended: an error or a panic ends it.
abbrev pub and_loop {ℓ κ μ} :
    {E : Type ℓ} {A : Type κ} {B : Type μ}
    → Outcome E A
    → (A → Option (Outcome E B))
    → Option (Outcome E B)
and_loop (ok a) f = f a
and_loop (err e) f = some (err e)
and_loop (panic p) f = some (panic p)

pub loop_parts {ℓ κ μ} :
    {E : Type ℓ} {A : Type κ} {B : Type μ} (first : Outcome E A) (next : A → Option (Outcome E B))
    {out : B}
    → and_loop first next ≡ some (ok out)
    → (mid : A) × (first ≡ ok mid) × (next mid ≡ some (ok out))
loop_parts (ok mid) next done = (mid, refl, done)
loop_parts (err e) next done = cc
loop_parts (panic p) next done = cc

-- A loop ends where what follows a value ends.
pub and_loop_ends {ℓ κ μ} :
    {E : Type ℓ} {A : Type κ} {B : Type μ} (first : Outcome E A) (next : A → Option (Outcome E B))
    → ((a : A) → first ≡ ok a → (out : Outcome E B) × (next a ≡ some out))
    → (out : Outcome E B) × (and_loop first next ≡ some out)
and_loop_ends (ok a) next ends = ends a refl
and_loop_ends (err e) next ends = (err e, refl)
and_loop_ends (panic p) next ends = (panic p, refl)

pub on_option_ends {ℓ κ} :
    {A : Type ℓ} {B : Type κ} (o : Option A) {b : Option B} (f : A → Option B)
    → ((out : B) × (b ≡ some out))
    → ((a : A) → o ≡ some a → (out : B) × (f a ≡ some out))
    → (out : B) × (on_option o b f ≡ some out)
on_option_ends none f here there = here
on_option_ends (some a) f here there = there a refl
