-- ===== src/ConfigChange/Roles.antt =====
-- The roles of a group's replicas as a map from replica ids, and how the writes of
-- src/server/src/node/replica/fsm/mod.rs change it.
use engula.Prelude.{
  ℕ, ◌≡◌, refl, Bool, true, Option, none, some, List, [], ◌∷◌, ◌++◌, map, retain, All, is_some,
  ◌==◌, if◌then◌else◌, arith,
}
use engula.Meta.{ReplicaRole, ReplicaDesc}
use engula.ConfigChange.{find_replica, set_role, role_of, leave_role, leave_replica}

-- The role under an id, `none` where there is no such replica.
abbrev pub role_at : List ReplicaDesc → ℕ → Option ReplicaRole
role_at rs id = role_of (find_replica id rs)

-- Every role is one that the enumeration has.
abbrev pub AllKnown : List ReplicaDesc → Type 0
AllKnown = All (λ r. is_some r.role ≡ true)

-- No two replicas share an id.
abbrev pub UniqueIds : List ReplicaDesc → Type 0
UniqueIds [] = Unit
UniqueIds (r ∷ rs) = (find_replica r.id rs ≡ none) × UniqueIds rs

pub find-none_of_role :
    (rs : List ReplicaDesc) (id : ℕ)
    → AllKnown rs
    → role_at rs id ≡ none
    → find_replica id rs ≡ none
find-none_of_role [] id k h = refl
find-none_of_role (r ∷ rs) id k h = ground (arith, find-none_of_role rs id k.1)

pub find-set_role :
    (i : ℕ) (role : ReplicaRole) (rs : List ReplicaDesc) (j : ℕ)
    → is_some (find_replica j (set_role i role rs)) ≡ is_some (find_replica j rs)
find-set_role i role [] j = refl
find-set_role i role (r ∷ rs) j = ground (arith, find-set_role i role rs j)

pub role_at-set_role :
    (i : ℕ) (role : ReplicaRole) (rs : List ReplicaDesc) (j : ℕ)
    → is_some (find_replica i rs) ≡ true
    → role_at (set_role i role rs) j ≡ (if i == j then some role else role_at rs j)
role_at-set_role i role [] j h = ground arith
role_at-set_role i role (r ∷ rs) j h = ground (arith, role_at-set_role i role rs j)

pub role_at-append :
    (rs : List ReplicaDesc) (r : ReplicaDesc) (j : ℕ)
    → find_replica r.id rs ≡ none
    → role_at (rs ++ r ∷ []) j ≡ (if r.id == j then r.role else role_at rs j)
role_at-append [] r j h = ground arith
role_at-append (x ∷ rs) r j h = ground (arith, role_at-append rs r j)

pub role_at-retain :
    (p : ℕ → Bool) (rs : List ReplicaDesc) (j : ℕ)
    → role_at (retain (λ r. p r.id) rs) j ≡ (if p j then role_at rs j else none)
role_at-retain p [] j = ground arith
role_at-retain p (r ∷ rs) j = ground (arith, role_at-retain p rs j)

pub role_at-leave :
    (rs : List ReplicaDesc) (j : ℕ) → role_at (map leave_replica rs) j ≡ leave_role (role_at rs j)
role_at-leave [] j = refl
role_at-leave (r ∷ rs) j = ground (arith, role_at-leave rs j)

find-append :
    (rs : List ReplicaDesc) (r : ReplicaDesc) (j : ℕ)
    → find_replica j rs ≡ none
    → find_replica j (rs ++ r ∷ []) ≡ (if r.id == j then some r else none)
find-append [] r j h = refl
find-append (x ∷ rs) r j h = ground (arith, find-append rs r j)

find-none-retain :
    (p : ReplicaDesc → Bool) (rs : List ReplicaDesc) (j : ℕ)
    → find_replica j rs ≡ none
    → find_replica j (retain p rs) ≡ none
find-none-retain p [] j h = refl
find-none-retain p (r ∷ rs) j h = ground (arith, find-none-retain p rs j)

find-none-leave :
    (rs : List ReplicaDesc) (j : ℕ)
    → find_replica j rs ≡ none
    → find_replica j (map leave_replica rs) ≡ none
find-none-leave [] j h = refl
find-none-leave (r ∷ rs) j h = ground (arith, find-none-leave rs j)

pub AllKnown-append :
    (rs : List ReplicaDesc) (r : ReplicaDesc)
    → AllKnown rs
    → is_some r.role ≡ true
    → AllKnown (rs ++ r ∷ [])
AllKnown-append [] r k h = (h, tt)
AllKnown-append (x ∷ rs) r k h = (k.0, AllKnown-append rs r k.1 h)

pub AllKnown-set_role :
    (i : ℕ) (role : ReplicaRole) (rs : List ReplicaDesc)
    → AllKnown rs
    → AllKnown (set_role i role rs)
AllKnown-set_role i role [] k = tt
AllKnown-set_role i role (r ∷ rs) k = ground (arith, AllKnown-set_role i role rs k.1)

pub UniqueIds-append :
    (rs : List ReplicaDesc) (r : ReplicaDesc)
    → UniqueIds rs
    → find_replica r.id rs ≡ none
    → UniqueIds (rs ++ r ∷ [])
UniqueIds-append [] r u h = (refl, tt)
UniqueIds-append (x ∷ rs) r u h =
    (ground (arith, find-append rs r x.id), UniqueIds-append rs r u.1 (ground arith))

pub UniqueIds-set_role :
    (i : ℕ) (role : ReplicaRole) (rs : List ReplicaDesc)
    → UniqueIds rs
    → UniqueIds (set_role i role rs)
UniqueIds-set_role i role [] u = tt
UniqueIds-set_role i role (r ∷ rs) u =
    ground (arith, find-set_role i role rs r.id, UniqueIds-set_role i role rs u.1)

pub UniqueIds-retain :
    (p : ReplicaDesc → Bool) (rs : List ReplicaDesc) → UniqueIds rs → UniqueIds (retain p rs)
UniqueIds-retain p [] u = tt
UniqueIds-retain p (r ∷ rs) u =
    ground (arith, find-none-retain p rs r.id, UniqueIds-retain p rs u.1)

pub AllKnown-retain :
    (p : ReplicaDesc → Bool) (rs : List ReplicaDesc) → AllKnown rs → AllKnown (retain p rs)
AllKnown-retain p [] k = tt
AllKnown-retain p (r ∷ rs) k = ground (arith, AllKnown-retain p rs k.1)

pub UniqueIds-leave : (rs : List ReplicaDesc) → UniqueIds rs → UniqueIds (map leave_replica rs)
UniqueIds-leave [] u = tt
UniqueIds-leave (r ∷ rs) u = (find-none-leave rs r.id u.0, UniqueIds-leave rs u.1)

pub AllKnown-leave : (rs : List ReplicaDesc) → AllKnown rs → AllKnown (map leave_replica rs)
AllKnown-leave [] k = tt
AllKnown-leave (r ∷ rs) k = (ground (arith, k.0), AllKnown-leave rs k.1)
