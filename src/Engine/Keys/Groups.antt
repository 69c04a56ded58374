-- ===== src/Engine/Keys/Groups.antt =====
-- The bytes and the groups of the keys of src/server/src/node/engine/group.rs, and how they are read
-- back.
use mathlib.Core.Path.{subst}
use native.Mathlib.Numerals.{unary_clauses}
use engula.Meta.{Bytes}
use engula.Prelude.{
  length-drop, length-take, ◌∙◌, false, ◌>>=◌, Bool-cases, inl, inr, Bool, get_elem?, ok, some, [],
  ap, arith, drop, length, length-append, refl, suc, take, zero, ℕ, ◌%◌, ◌++◌, ◌/◌, ◌<◌, ◌^◌, ◌∷◌,
  ◌≡◌, ◌≤◌,
}
use engula.Engine.Keys.{
  encode_groups, decode_groups, is_empty, mark, num_element, from_le_bytes, read_into, to_be_bytes,
  to_le_bytes,
}

pub from_le_bytes-to_le_bytes : (n x : ℕ) → x < 256 ^ n → from_le_bytes (to_le_bytes n x) ≡ x
from_le_bytes-to_le_bytes zero x h = omega (arith, h)
from_le_bytes-to_le_bytes (suc n) x h =
    let less : x / 256 < 256 ^ n = omega (arith, simp unary_clauses at h) in
    omega (arith, from_le_bytes-to_le_bytes n (x / 256) less)

pub take-length-append : (xs ys : Bytes) → take (length xs) (xs ++ ys) ≡ xs
take-length-append [] ys = refl
take-length-append (x ∷ xs) ys = ap (λ zs. x ∷ zs) (take-length-append xs ys)

pub drop-length-append : (xs ys : Bytes) → drop (length xs) (xs ++ ys) ≡ ys
drop-length-append [] ys = refl
drop-length-append (x ∷ xs) ys = drop-length-append xs ys

pub length-to_le_bytes : (n x : ℕ) → length (to_le_bytes n x) ≡ n
length-to_le_bytes zero x = refl
length-to_le_bytes (suc n) x = ap suc (length-to_le_bytes n (x / 256))

pub length-to_be_bytes : (n x : ℕ) → length (to_be_bytes n x) ≡ n
length-to_be_bytes zero x = refl
length-to_be_bytes (suc n) x =
    omega (
      arith,
      length-append (to_be_bytes n (x / 256)) (x % 256 ∷ []),
      length-to_be_bytes n (x / 256),
    )

pub length-read_into : (n : ℕ) (bs : Bytes) → length (read_into n bs) ≡ n
length-read_into zero bs = refl
length-read_into (suc n) [] = ap suc (length-read_into n [])
length-read_into (suc n) (b ∷ bs) = ap suc (length-read_into n bs)

-- The whole bytes that were read are in front of the zeros.
take-read_into :
    (n : ℕ) (bs tail : Bytes) → length bs ≤ n → take (length bs) (read_into n bs ++ tail) ≡ bs
take-read_into n [] tail h = refl
take-read_into zero (b ∷ bs) tail h = absurd (omega (arith, h))
take-read_into (suc n) (b ∷ bs) tail h =
    ap (λ zs. b ∷ zs) (take-read_into n bs tail (omega (arith, h)))

take-drop : (n : ℕ) (bs : Bytes) → take n bs ++ drop n bs ≡ bs
take-drop zero bs = refl
take-drop (suc n) [] = refl
take-drop (suc n) (b ∷ bs) = ap (λ zs. b ∷ zs) (take-drop n bs)

-- What the mark says of a group: how many of its bytes are the key's.
num_element-mark :
    (checks : Bool) (g rest : Bytes)
    → length g ≤ 8
    → num_element checks (mark (length g) rest) ≡ ok (length g)
unfolding num_element
num_element-mark checks g rest h = elim (Bool-cases (is_empty rest)) [
  | inl last ↦ ground (arith, h, last)
  | inr more ↦ ground (arith, h, more)
]

-- The first group of an encoded key.
abbrev first_group : Bytes → Bytes → Bytes
first_group key tail = read_into 8 (take 8 key) ++ mark (length (take 8 key)) (drop 8 key) ∷ tail

full-group :
    (bs : Bytes) (m : ℕ) (tail : Bytes)
    → read_into (suc (length bs)) (take (suc (length bs)) (bs ++ m ∷ tail)) ≡ bs ++ m ∷ []
full-group [] m tail = refl
full-group (b ∷ bs) m tail = ap (λ zs. b ∷ zs) (full-group bs m tail)

mark-position : (bs : Bytes) (m : ℕ) → get_elem? (bs ++ m ∷ []) (length bs) ≡ some m
mark-position [] m = refl
mark-position (b ∷ bs) m = mark-position bs m

behind-group : (bs : Bytes) (m : ℕ) (tail : Bytes) → drop (suc (length bs)) (bs ++ m ∷ tail) ≡ tail
behind-group [] m tail = refl
behind-group (b ∷ bs) m tail = behind-group bs m tail

is_empty-behind : (bs : Bytes) (m : ℕ) (tail : Bytes) → is_empty (bs ++ m ∷ tail) ≡ false
is_empty-behind [] m tail = refl
is_empty-behind (b ∷ bs) m tail = refl

-- Decoding a group of eight bytes and a mark that says how many of them count.
module _ (checks : Bool) (fuel : ℕ) (g tail : Bytes) (m : ℕ) (small : length g ≤ 8) where
  buffer : Bytes
  buffer = read_into 8 g

  nine : suc (length buffer) ≡ 9
  unfolding buffer
  nine = ap suc (length-read_into 8 g)

  group_read : read_into 9 (take 9 (buffer ++ m ∷ tail)) ≡ buffer ++ m ∷ []
  group_read =
      subst (λ n. read_into n (take n (buffer ++ m ∷ tail)) ≡ buffer ++ m ∷ []) nine
        (full-group buffer m tail)

  rest_read : drop 9 (buffer ++ m ∷ tail) ≡ tail
  rest_read = subst (λ n. drop n (buffer ++ m ∷ tail) ≡ tail) nine (behind-group buffer m tail)

  mark_read : get_elem? (buffer ++ m ∷ []) 8 ≡ some m
  unfolding buffer
  mark_read =
      subst (λ n. get_elem? (buffer ++ m ∷ []) n ≡ some m) (length-read_into 8 g)
        (mark-position buffer m)

  decode-group :
      num_element checks m ≡ ok (length g)
      → decode_groups checks (suc fuel) (buffer ++ m ∷ tail)
        ≡ (decode_groups checks fuel tail >>= λ r. ok (g ++ r))
  unfolding decode_groups buffer
  decode-group counted =
      rw
        (
          is_empty-behind buffer m tail,
          group_read,
          rest_read,
          mark_read,
          counted,
          take-read_into 8 g (m ∷ []) small,
        )
        refl

pub encode-step :
    (fuel b : ℕ) (bs : Bytes)
    → encode_groups (suc fuel) (b ∷ bs)
      ≡ read_into 8 (take 8 (b ∷ bs))
        ++ mark (length (take 8 (b ∷ bs))) (drop 8 (b ∷ bs)) ∷ encode_groups fuel (drop 8 (b ∷ bs))
unfolding encode_groups
encode-step fuel b bs = refl

decode-nothing :
    (checks : Bool) (fuel more : ℕ) → decode_groups checks more (encode_groups fuel []) ≡ ok []
unfolding decode_groups encode_groups
decode-nothing checks zero zero = refl
decode-nothing checks zero (suc more) = refl
decode-nothing checks (suc fuel) zero = refl
decode-nothing checks (suc fuel) (suc more) = refl

pub take-short : (key : Bytes) → length (take 8 key) ≤ 8
take-short key = omega (arith, length-take 8 key)

-- One group of a key, given that the rest decodes.
decode-first :
    (checks : Bool) (more b : ℕ) (bs : Bytes) (tail : Bytes)
    → decode_groups checks more tail ≡ ok (drop 8 (b ∷ bs))
    → decode_groups checks
        (suc more)
        (read_into 8 (take 8 (b ∷ bs)) ++ mark (length (take 8 (b ∷ bs))) (drop 8 (b ∷ bs)) ∷ tail)
      ≡ ok (b ∷ bs)
unfolding buffer
decode-first checks more b bs tail done =
    decode-group checks more (take 8 (b ∷ bs)) tail
      (mark (length (take 8 (b ∷ bs))) (drop 8 (b ∷ bs))) (take-short (b ∷ bs))
      (num_element-mark checks (take 8 (b ∷ bs)) (drop 8 (b ∷ bs)) (take-short (b ∷ bs)))
    ∙ rw done (ap ok (take-drop 8 (b ∷ bs)))

-- The groups of a key decode to it, whatever fuel the two loops have that is enough.
pub decode_groups-encode_groups :
    (checks : Bool) (fuel more : ℕ) (key : Bytes)
    → length key ≤ fuel
    → length key ≤ more
    → decode_groups checks more (encode_groups fuel key) ≡ ok key
decode_groups-encode_groups checks fuel more [] h l = decode-nothing checks fuel more
decode_groups-encode_groups checks zero more (b ∷ bs) h l = absurd (omega (arith, h))
decode_groups-encode_groups checks (suc fuel) zero (b ∷ bs) h l = absurd (omega (arith, l))
decode_groups-encode_groups checks (suc fuel) (suc more) (b ∷ bs) h l = rw (encode-step fuel b bs) (
    decode-first checks more b bs (encode_groups fuel (drop 8 (b ∷ bs))) (
      decode_groups-encode_groups checks fuel more (drop 8 (b ∷ bs))
        (omega (arith, h, length-drop 8 (b ∷ bs))) (omega (arith, l, length-drop 8 (b ∷ bs)))))
