-- ===== src/Engine/Keys/Order.antt =====
-- The order of the versioned keys of src/server/src/node/engine/group.rs in the database.
use engula.Engine.Keys.{
  mvcc_key, slot_bytes, to_le_bytes, to_be_bytes, encode_groups, is_empty, mark, read_into,
}
use engula.Engine.Keys.Lex.{
  lex-append, Ordering-cases, lex-eq, lex-take-drop, lex-gt, then_compare_assoc, lex,
  lex-append-same, then_compare,
}
use engula.Meta.{Bytes}
use engula.Prelude.{
  ok, u64_mod, ◌-◌, Option, ◌%◌, ◌/◌, ◌^◌, ap, inl, inr, length-drop, sym, ◌∙◌, false, refl, ◌+◌,
  drop, length-take, take, [], arith, length, suc, zero, ℕ, ◌++◌, ◌<◌, ◌∷◌, ◌≡◌, ◌≤◌,
}
use engula.Engine.Keys.Groups.{length-to_be_bytes, take-short, encode-step}
use mathlib.Core.List.{append_assoc}
use engula.Engine.Keys.RoundTrip.{mvcc_key-encoded, encoded, filled-length}
use Prim.Native.Nat.{compare, Ordering}
use native.Mathlib.Numerals.{unary_clauses}

-- The zeros behind a short group are not above the bytes of a longer one, whose mark is greater.
lex-shorter :
    (n m k : ℕ) (h t u : Bytes)
    → 0 < length h
    → length h ≤ n
    → m < k
    → lex (read_into n [] ++ m ∷ t) (read_into n h ++ k ∷ u) ≡ Ordering.lt
lex-shorter n m k [] t u some_bytes fits less = absurd (omega (arith, some_bytes))
lex-shorter zero m k (y ∷ ys) t u some_bytes fits less = absurd (omega (arith, fits))
lex-shorter (suc n) m k (zero ∷ []) t u some_bytes fits less =
    ground (arith, less, lex-append-same (read_into n []) (m ∷ t) (k ∷ u))
lex-shorter (suc n) m k (zero ∷ (z ∷ zs)) t u some_bytes fits less =
    lex-shorter n m k (z ∷ zs) t u (omega arith) (omega (arith, fits)) less
lex-shorter (suc n) m k (suc y ∷ ys) t u some_bytes fits less = ground arith

-- Groups are compared by their bytes, and where these agree by what is behind them.
lex-read_into :
    (n m k : ℕ) (g h t u : Bytes)
    → length g ≤ n
    → length h ≤ n
    → (length g < length h → m < k)
    → (length h < length g → k < m)
    → lex (read_into n g ++ m ∷ t) (read_into n h ++ k ∷ u)
      ≡ then_compare (lex g h) (lex (m ∷ t) (k ∷ u))
lex-read_into n m k [] [] t u a b below above = lex-append-same (read_into n []) (m ∷ t) (k ∷ u)
lex-read_into n m k [] (y ∷ ys) t u a b below above =
    lex-shorter n m k (y ∷ ys) t u (omega arith) b (below (omega arith))
lex-read_into n m k (x ∷ xs) [] t u a b below above =
    lex-gt (read_into n [] ++ k ∷ u) (read_into n (x ∷ xs) ++ m ∷ t)
      (lex-shorter n k m (x ∷ xs) u t (omega arith) a (above (omega arith)))
lex-read_into zero m k (x ∷ xs) (y ∷ ys) t u a b below above = absurd (omega (arith, a))
lex-read_into (suc n) m k (x ∷ xs) (y ∷ ys) t u a b below above = ground (
  arith,
  lex-read_into n m k xs ys t u (omega (arith, a)) (omega (arith, b))
      (λ h. below (omega (arith, h))) (λ h. above (omega (arith, h))),
  then_compare_assoc (compare x y) (lex xs ys) (lex (m ∷ t) (k ∷ u)),
)

mark-least : (size : ℕ) (rest : Bytes) → size ≤ 8 → 48 + size ≤ mark size rest
mark-least size [] h = ground (arith, h)
mark-least size (x ∷ xs) h = ground (arith, h)

mark-small : (size : ℕ) (rest : Bytes) → size < 8 → mark size rest ≡ 48 + size
mark-small size [] h = ground (arith, h)
mark-small size (x ∷ xs) h = ground (arith, h)

-- The mark of a shorter group is smaller.
mark-lt : (a b : ℕ) (ra rb : Bytes) → b ≤ 8 → a < b → mark a ra < mark b rb
mark-lt a b ra rb short h =
    omega (arith, mark-least b rb short, mark-small a ra (omega (arith, short, h)), h)

encode-nothing : (fuel : ℕ) → encode_groups fuel [] ≡ []
unfolding encode_groups
encode-nothing zero = refl
encode-nothing (suc fuel) = refl

-- Behind groups of one size, a key that ends has the smaller mark.
module _ (n k size : ℕ) (x y : Bytes) where
  abbrev tail_of : ℕ → Bytes → Bytes → Bytes
  tail_of fuel rest end = mark size rest ∷ (encode_groups fuel rest ++ end)

  lex-rest :
      (a b : Bytes)
      → (is_empty a ≡ false → size ≡ 8)
      → (is_empty b ≡ false → size ≡ 8)
      → (is_empty a ≡ false
          → is_empty b ≡ false
          → lex (encode_groups n a ++ x) (encode_groups k b ++ y)
            ≡ then_compare (lex a b) (lex x y))
      → lex (tail_of n a x) (tail_of k b y) ≡ then_compare (lex a b) (lex x y)
  lex-rest [] [] full_a full_b rest = ground (arith, encode-nothing n, encode-nothing k)
  lex-rest [] (c ∷ cs) full_a full_b rest = ground (arith, full_b refl)
  lex-rest (c ∷ cs) [] full_a full_b rest = ground (arith, full_a refl)
  lex-rest (c ∷ cs) (d ∷ ds) full_a full_b rest = ground (arith, rest refl refl)

behind-full : (key : Bytes) → is_empty (drop 8 key) ≡ false → length (take 8 key) ≡ 8
behind-full key h =
    omega (arith, filled-length (drop 8 key) h, length-drop 8 key, length-take 8 key)

-- The encoding of a key that is not empty, with its first group in front.
encode-front :
    (fuel b : ℕ) (bs x : Bytes)
    → encode_groups (suc fuel) (b ∷ bs) ++ x
      ≡ read_into 8 (take 8 (b ∷ bs))
        ++ mark (length (take 8 (b ∷ bs))) (drop 8 (b ∷ bs))
          ∷ (encode_groups fuel (drop 8 (b ∷ bs)) ++ x)
encode-front fuel b bs x = rw (encode-step fuel b bs, append_assoc) refl

module _ (n k : ℕ) (a b x y : Bytes) where
  abbrev front_and_tail : ℕ → Bytes → Bytes → Bytes
  front_and_tail fuel key end =
      read_into 8 (take 8 key)
      ++ mark (length (take 8 key)) (drop 8 key) ∷ (encode_groups fuel (drop 8 key) ++ end)

  lex-first_group :
      lex (front_and_tail n a x) (front_and_tail k b y)
      ≡ then_compare (lex (take 8 a) (take 8 b)) (
          lex
            (mark (length (take 8 a)) (drop 8 a) ∷ (encode_groups n (drop 8 a) ++ x))
            (mark (length (take 8 b)) (drop 8 b) ∷ (encode_groups k (drop 8 b) ++ y)))
  lex-first_group =
      lex-read_into 8 (mark (length (take 8 a)) (drop 8 a)) (mark (length (take 8 b)) (drop 8 b))
        (take 8 a) (take 8 b) (encode_groups n (drop 8 a) ++ x) (encode_groups k (drop 8 b) ++ y)
        (take-short a) (take-short b)
        (mark-lt (length (take 8 a)) (length (take 8 b)) (drop 8 a) (drop 8 b) (take-short b))
        (mark-lt (length (take 8 b)) (length (take 8 a)) (drop 8 b) (drop 8 a) (take-short a))

  lex-tails :
      lex (take 8 a) (take 8 b) ≡ Ordering.eq
      → (is_empty (drop 8 a) ≡ false
          → is_empty (drop 8 b) ≡ false
          → lex (encode_groups n (drop 8 a) ++ x) (encode_groups k (drop 8 b) ++ y)
            ≡ then_compare (lex (drop 8 a) (drop 8 b)) (lex x y))
      → lex
          (mark (length (take 8 a)) (drop 8 a) ∷ (encode_groups n (drop 8 a) ++ x))
          (mark (length (take 8 b)) (drop 8 b) ∷ (encode_groups k (drop 8 b) ++ y))
        ≡ then_compare (lex (drop 8 a) (drop 8 b)) (lex x y)
  lex-tails same rest =
      let size : length (take 8 b) ≡ length (take 8 a) =
        ap length (sym (lex-eq (take 8 a) (take 8 b) same)) in
      rw size (
        lex-rest n k (length (take 8 a)) x y (drop 8 a) (drop 8 b) (behind-full a)
          (λ f. sym size ∙ behind-full b f) rest)

  lex-groups :
      (is_empty (drop 8 a) ≡ false
        → is_empty (drop 8 b) ≡ false
        → lex (encode_groups n (drop 8 a) ++ x) (encode_groups k (drop 8 b) ++ y)
          ≡ then_compare (lex (drop 8 a) (drop 8 b)) (lex x y))
      → lex (front_and_tail n a x) (front_and_tail k b y) ≡ then_compare (lex a b) (lex x y)
  lex-groups rest = elim (Ordering-cases (lex (take 8 a) (take 8 b))) [
    | inl less ↦ rw (lex-first_group, lex-take-drop 8 a b, less) refl
    | inr (inl same) ↦ rw (lex-first_group, lex-take-drop 8 a b, same) (lex-tails same rest)
    | inr (inr more) ↦ rw (lex-first_group, lex-take-drop 8 a b, more) refl
  ]

-- Encoded keys that are not empty are in the order of the keys, and then of what follows them.
pub lex-encode_groups :
    (n k : ℕ) (a b x y : Bytes)
    → length a ≤ n
    → length b ≤ k
    → is_empty a ≡ false
    → is_empty b ≡ false
    → lex (encode_groups n a ++ x) (encode_groups k b ++ y) ≡ then_compare (lex a b) (lex x y)
lex-encode_groups n k [] b x y la lb fa fb = cc
lex-encode_groups n k (a ∷ ra) [] x y la lb fa fb = cc
lex-encode_groups zero k (a ∷ ra) (b ∷ rb) x y la lb fa fb = absurd (omega (arith, la))
lex-encode_groups (suc n) zero (a ∷ ra) (b ∷ rb) x y la lb fa fb = absurd (omega (arith, lb))
lex-encode_groups (suc n) (suc k) (a ∷ ra) (b ∷ rb) x y la lb fa fb =
    rw (encode-front n a ra x, encode-front k b rb y)
      (lex-groups n k (a ∷ ra) (b ∷ rb) x y (λ f g.
        lex-encode_groups n k (drop 8 (a ∷ ra)) (drop 8 (b ∷ rb)) x y
          (omega (arith, la, length-drop 8 (a ∷ ra))) (omega (arith, lb, length-drop 8 (b ∷ rb))) f
          g))

lex-one : (x y : ℕ) → lex (x ∷ []) (y ∷ []) ≡ compare x y
lex-one x y = elim (Ordering-cases (compare x y)) [
  | inl less ↦ rw less refl
  | inr (inl same) ↦ rw same refl
  | inr (inr more) ↦ rw more refl
]

compare-digits :
    (x y : ℕ)
    → then_compare (compare (x / 256) (y / 256)) (compare (x % 256) (y % 256)) ≡ compare x y
compare-digits x y = ground arith

-- Big-endian bytes are in the order of the numbers.
lex-to_be_bytes :
    (n x y : ℕ) → x < 256 ^ n → y < 256 ^ n → lex (to_be_bytes n x) (to_be_bytes n y) ≡ compare x y
lex-to_be_bytes zero x y a b = ground (arith, a, b)
lex-to_be_bytes (suc n) x y a b =
    let p : x / 256 < 256 ^ n = omega (arith, simp unary_clauses at a) in
    let q : y / 256 < 256 ^ n = omega (arith, simp unary_clauses at b) in
    rw
      (
        lex-append (to_be_bytes n (x / 256)) (to_be_bytes n (y / 256)) (x % 256 ∷ []) (y % 256 ∷ [])
            (length-to_be_bytes n (x / 256) ∙ sym (length-to_be_bytes n (y / 256))),
        lex-to_be_bytes n (x / 256) (y / 256) p q,
        lex-one (x % 256) (y % 256),
      )
      (compare-digits x y)

compare-versions :
    (v w : ℕ) → v < 2 ^ 64 → w < 2 ^ 64 → compare (u64_mod - 1 - v) (u64_mod - 1 - w) ≡ compare w v
compare-versions v w a b = ground (arith, a, b)

-- The keys of one collection and slot.
module _ (collection_id : ℕ) (slot : Option ℕ) where
  -- Versioned keys are in the order of the keys, and those of one key from the newest version on.
  pub lex-encoded :
      (a b : Bytes) (v w : ℕ)
      → is_empty a ≡ false
      → is_empty b ≡ false
      → v < 2 ^ 64
      → w < 2 ^ 64
      → lex (encoded collection_id slot a v) (encoded collection_id slot b w)
        ≡ then_compare (lex a b) (compare w v)
  lex-encoded a b v w fa fb hv hw =
      let low : u64_mod - 1 - v < 256 ^ 8 = omega arith in
      let low' : u64_mod - 1 - w < 256 ^ 8 = omega arith in
      rw
        (
          lex-append-same (to_le_bytes 8 collection_id)
              ((slot_bytes slot ++ encode_groups (length a) a) ++ to_be_bytes 8 (u64_mod - 1 - v))
              ((slot_bytes slot ++ encode_groups (length b) b) ++ to_be_bytes 8 (u64_mod - 1 - w)),
          append_assoc (slot_bytes slot) (encode_groups (length a) a)
              (to_be_bytes 8 (u64_mod - 1 - v)),
          append_assoc (slot_bytes slot) (encode_groups (length b) b)
              (to_be_bytes 8 (u64_mod - 1 - w)),
          lex-append-same (slot_bytes slot)
              (encode_groups (length a) a ++ to_be_bytes 8 (u64_mod - 1 - v))
              (encode_groups (length b) b ++ to_be_bytes 8 (u64_mod - 1 - w)),
          lex-encode_groups (length a) (length b) a b (to_be_bytes 8 (u64_mod - 1 - v))
              (to_be_bytes 8 (u64_mod - 1 - w)) (omega arith) (omega arith) fa fb,
          lex-to_be_bytes 8 (u64_mod - 1 - v) (u64_mod - 1 - w) low low',
          compare-versions v w hv hw,
        )
        refl

-- The keys of two versions in a collection and slot can be formed where the keys are not empty. The
-- database has them in the order of the keys, and those of one key from the newest version on.
pub lex-mvcc_key :
    (collection_id : ℕ) (slot : Option ℕ) (a b : Bytes) (v w : ℕ)
    → is_empty a ≡ false
    → is_empty b ≡ false
    → v < 2 ^ 64
    → w < 2 ^ 64
    → (ka : Bytes) × (kb : Bytes) × (mvcc_key collection_id slot a v ≡ ok ka)
      × (mvcc_key collection_id slot b w ≡ ok kb)
      × (lex ka kb ≡ then_compare (lex a b) (compare w v))
lex-mvcc_key collection_id slot a b v w fa fb hv hw = (
  encoded collection_id slot a v,
  encoded collection_id slot b w,
  mvcc_key-encoded collection_id slot a v fa,
  mvcc_key-encoded collection_id slot b w fb,
  lex-encoded collection_id slot a b v w fa fb hv hw,
)
