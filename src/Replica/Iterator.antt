-- ===== src/Replica/Iterator.antt =====
-- What the iterators of src/server/src/node/engine/group.rs have left after each step.

use engula.Engine.Snapshot.{
  bytes_eq, value_of, Visit, consumed, on_visit, skipped, found, found_at, next_key, visit,
  next_mvcc_entry, is_current_key, DbItem, Snapshot, SnapshotCore, MvccEntry, take_entry,
  parse_item,
}
use engula.Prelude.{
  some_injective, ◌⊎◌, false, true, ◌≤◌, ◌>>=◌, suc, ok_parts, on_option, [], arith, ok,
  ok-injective, ◌<◌, ◌∷◌, Bool, Bool-cases, List, Option, ap, if◌then◌else◌, inl, inr, is_some,
  length, none, refl, some, sym, ℕ, ◌+◌, ◌∙◌, ◌≡◌,
}
use engula.Error.{Result}
use mathlib.Core.Path.{subst}
use engula.Meta.{Bytes}

-- What the iterator has left: the cached entry and the items behind it.
unfoldable pub left : SnapshotCore → ℕ
left at = (if is_some at.cached_entry then 1 else 0) + length at.db_iter

below : (m n k : ℕ) → m ≡ n → k ≡ 1 + n → m < k
below m n k h e = omega (arith, h, e)

pub no_room : (n : ℕ) → n < 0 → ⊥
no_room n h = omega (arith, h)

pub shrunk : (a b c d : ℕ) → a < b → b ≤ c → c < suc d → a < d
shrunk a b c d h g e = omega (arith, h, g, e)

pub one_more : (b : Bool) (n : ℕ) → (if b then 1 else 0) + n < suc (suc n)
one_more true n = omega arith
one_more false n = omega arith

take_entry-left :
    (checks : Bool) (items : List DbItem) (e : MvccEntry) (current : Option Bytes) {x : MvccEntry}
    → (take_entry checks items e current).0 ≡ some x
    → left (take_entry checks items e current).1 ≡ length items
unfolding take_entry left
take_entry-left checks items e current h = elim (Bool-cases (is_current_key current e.user_key)) [
  | inl same ↦ rw (same, take_entry) (omega arith)
  | inr unlike ↦ cc
]

taken-left :
    (checks : Bool) (items : List DbItem) (current : Option Bytes) (o : Option MvccEntry)
    {r : Option MvccEntry × SnapshotCore} {x : MvccEntry}
    → ◌≡◌ {A = Result (Option MvccEntry × SnapshotCore)}
        (on_option o
          (ok (none, record { db_iter = items; current_key = current; cached_entry = none }))
          λ e. ok (take_entry checks items e current))
        (ok r)
    → r.0 ≡ some x
    → left r.1 ≡ length items
taken-left checks items current none h is_x = cc (ap (λ p. p.0) (ok-injective h), is_x)
taken-left checks items current (some e) h is_x =
    let same = ok-injective h in
    ap left (ap (λ p. p.1) (sym same))
    ∙ take_entry-left checks items e current (ap (λ p. p.0) same ∙ is_x)

pub next_mvcc_entry-left :
    (checks : Bool) (snap : Snapshot) (items : List DbItem) (current : Option Bytes)
    (cached : Option MvccEntry) {r : Option MvccEntry × SnapshotCore} {x : MvccEntry}
    → next_mvcc_entry checks snap
        (record { db_iter = items; current_key = current; cached_entry = cached })
      ≡ ok r
    → r.0 ≡ some x
    → left r.1 < left (record { db_iter = items; current_key = current; cached_entry = cached })
unfolding next_mvcc_entry left
next_mvcc_entry-left checks snap items current (some e) {r} h is_x =
    below (left r.1) (length items) (1 + length items)
      (taken-left checks items current (some e) h is_x) refl
next_mvcc_entry-left checks snap [] current none h is_x = cc (ap (λ p. p.0) (ok-injective h), is_x)
next_mvcc_entry-left checks snap (item ∷ items) current none {r} h is_x =
    let parts =
      ok_parts (parse_item checks snap item)
        (λ e.
          on_option e
            (ok (none, record { db_iter = items; current_key = current; cached_entry = none }))
            λ x. ok (take_entry checks items x current))
        h in
    below (left r.1) (length items) _ (taken-left checks items current parts.0 parts.2 is_x)
      (omega arith)

-- At a key that the iterator finds, an entry of it is cached.
unfoldable pub AtKey : SnapshotCore → Type 0
AtKey at = (e : MvccEntry) × (at.cached_entry ≡ some e) × (at.current_key ≡ some e.user_key)

found_at-AtKey :
    (checks : Bool) (snap : Snapshot) (items : List DbItem) (cached : Option MvccEntry)
    (current : Option Bytes)
    → visit checks snap cached current ≡ found
    → AtKey (found_at checks items cached current)
      × (left (found_at checks items cached current)
          ≡ (if is_some cached then 1 else 0) + length items)
unfolding AtKey left
found_at-AtKey checks snap items none current h = cc
found_at-AtKey checks snap items (some e) current h = ((e, refl, refl), refl)

visited :
    (checks : Bool) (v : Visit checks) (y z : Result (Option SnapshotCore)) {here : SnapshotCore}
    → on_visit checks v (ok none) y z ≡ ok (some here)
    → ((v ≡ found) × (y ≡ ok (some here))) ⊎ (z ≡ ok (some here))
visited checks consumed y z h = cc
visited checks found y z h = inl (refl, h)
visited checks skipped y z h = inr h

bounded : {x y : SnapshotCore} {n : ℕ} → x ≡ y → left x ≡ n → left y ≤ n
bounded same h = omega (arith, sym (ap left same) ∙ h)

pub more : (m : ℕ) (b : Bool) (n : ℕ) → m ≤ 1 + n → m ≤ (if b then 1 else 0) + suc n
more m true n h = omega (arith, h)
more m false n h = omega (arith, h)

next_item :
    {P : Type 0} (o : Option MvccEntry) (f : Option MvccEntry → Result (Option SnapshotCore))
    {here : SnapshotCore}
    → ((e : MvccEntry) → f (some e) ≡ ok (some here) → P)
    → ◌≡◌ {A = Result (Option SnapshotCore)}
        (on_option o (ok none) λ e. f (some e))
        (ok (some here))
    → P
next_item none f follows h = cc
next_item (some e) f follows h = follows e h

pub next_key-left :
    (checks : Bool) (snap : Snapshot) (items : List DbItem) (cached : Option MvccEntry)
    (current : Option Bytes) {here : SnapshotCore}
    → next_key checks snap items cached current ≡ ok (some here)
    → AtKey here × (left here ≤ (if is_some cached then 1 else 0) + length items)
unfolding next_key
next_key-left checks snap [] cached current h =
    elim (visited checks (visit checks snap cached current) _ _ h) [
      | inl (is_found, here) ↦
          let at = found_at-AtKey checks snap [] cached current is_found in
          let same = some_injective (ok-injective here) in
          (subst AtKey same at.0, bounded same at.1)
      | inr later ↦ cc
    ]
next_key-left checks snap (item ∷ items) cached current {here} h =
    elim (visited checks (visit checks snap cached current) _ _ h) [
      | inl (is_found, here) ↦
          let at = found_at-AtKey checks snap (item ∷ items) cached current is_found in
          let same = some_injective (ok-injective here) in
          (subst AtKey same at.0, bounded same at.1)
      | inr later ↦
          let parts = ok_parts (parse_item checks snap item) _ later in
          let next =
            next_item parts.0 (λ e. next_key checks snap items e current)
              (λ e is_next. next_key-left checks snap items (some e) current is_next) parts.2 in
          (next.0, more (left here) (is_some cached) (length items) next.1)
    ]

pub bytes_eq_refl : (xs : Bytes) → bytes_eq xs xs ≡ true
bytes_eq_refl [] = refl
bytes_eq_refl (x ∷ xs) = ground (arith, bytes_eq_refl xs)

pub shorter : (a b c : ℕ) → a ≡ b → b < c → a < c
shorter a b c h g = omega (arith, h, g)

pub first_pair :
    (checks : Bool) (o : Option MvccEntry) (next : SnapshotCore) (values : List Bytes)
    (add : Option Bytes → List Bytes) {r : SnapshotCore × List Bytes}
    → ◌≡◌ {A = Result (SnapshotCore × List Bytes)}
        (on_option o
          (ok (next, values))
          λ entry. value_of checks entry >>= λ value. ok (next, add value))
        (ok r)
    → r.0 ≡ next
first_pair checks none next values add h = ap (λ p. p.0) (sym (ok-injective h))
first_pair checks (some e) next values add h =
    ap (λ p. p.0)
      (sym (ok-injective (ok_parts (value_of checks e) (λ value. ok (next, add value)) h).2))
