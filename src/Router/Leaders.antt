-- ===== src/Router/Leaders.antt =====
-- Which replica src/client/src/router.rs takes to lead a group.
use engula.Prelude.{
  or_true, ==_refl, ap, ltb, sym, ◌||◌, ◌∙◌, All, Bool, Bool-cases, List, Option, [], any, arith,
  false, inl, inr, none, refl, some, true, ℕ, ◌&&◌, ◌==◌, ◌∷◌, ◌≡◌, ◌≤◌,
}
use engula.Router.{greatest_of, leader_state, last_greatest, leaders}
use engula.Meta.{GroupState, is_leader, ReplicaState}

-- A replica of the id and term that says it leads.
unfoldable pub leads : ℕ × ℕ → ReplicaState → Bool
leads at r = is_leader r.role && ((r.replica_id == at.0) && (r.term == at.1))

unfoldable pub IsNoLaterLeader : ℕ → ReplicaState → Type 0
IsNoLaterLeader term r = is_leader r.role ≡ true → r.term ≤ term

unfoldable pub Elected : List ReplicaState → Option (ℕ × ℕ) → Type 0
unfolding leads IsNoLaterLeader
Elected rs none = any (λ r. is_leader r.role) rs ≡ false
Elected rs (some best) = (any (leads best) rs ≡ true) × All (IsNoLaterLeader best.1) rs

no_later :
    (rs : List ReplicaState) (term later : ℕ)
    → term ≤ later
    → All (IsNoLaterLeader term) rs
    → All (IsNoLaterLeader later) rs
unfolding IsNoLaterLeader
no_later [] term later h all = tt
no_later (r ∷ rs) term later h (first, rest) =
    (λ led. omega (arith, first led, h), no_later rs term later h rest)

no_leader :
    (rs : List ReplicaState) (term : ℕ)
    → any (λ r. is_leader r.role) rs ≡ false
    → All (IsNoLaterLeader term) rs
unfolding IsNoLaterLeader
no_leader [] term h = tt
no_leader (r ∷ rs) term h = elim (Bool-cases (is_leader r.role)) [
  | inl led ↦ cc
  | inr follows ↦ (
    (λ led. cc),
    no_leader rs term (sym (ap (λ b. b || any (λ r'. is_leader r'.role) rs) follows) ∙ h),
  )
]

candidate-Elected :
    (r : ReplicaState) (rs : List ReplicaState) (best : Option (ℕ × ℕ))
    → is_leader r.role ≡ true
    → Elected rs best
    → Elected (r ∷ rs) (greatest_of (r.replica_id, r.term) best)
unfolding Elected leads IsNoLaterLeader greatest_of
candidate-Elected r rs none led h =
    (rw (led, ==_refl r.replica_id, ==_refl r.term) refl, (λ _. omega arith, no_leader rs r.term h))
candidate-Elected r rs (some best) led (is_best, all) = elim (Bool-cases (ltb best.1 r.term)) [
  | inl greater ↦ rw greater (
    rw (led, ==_refl r.replica_id, ==_refl r.term) refl,
    (λ _. omega arith, no_later rs best.1 r.term (ground (arith, greater)) all),
  )
  | inr smaller ↦ rw smaller (rw is_best (or_true _), (λ _. ground (arith, smaller), all))
]

follower-Elected :
    (r : ReplicaState) (rs : List ReplicaState) (best : Option (ℕ × ℕ))
    → is_leader r.role ≡ false
    → Elected rs best
    → Elected (r ∷ rs) best
unfolding Elected leads IsNoLaterLeader
follower-Elected r rs none follows h = rw follows h
follower-Elected r rs (some best) follows (is_best, all) = (rw follows is_best, (λ led. cc, all))

all-Elected : (rs : List ReplicaState) → Elected rs (last_greatest (leaders rs))
unfolding leaders last_greatest Elected
all-Elected [] = refl
all-Elected (r ∷ rs) = elim (Bool-cases (is_leader r.role)) [
  | inl led ↦ rw led (candidate-Elected r rs (last_greatest (leaders rs)) led (all-Elected rs))
  | inr follows ↦
      rw follows (follower-Elected r rs (last_greatest (leaders rs)) follows (all-Elected rs))
]

-- The leader of a group's state that names one is a replica that says it leads, in a term than which
-- no other such replica has a later one; none is found only where no replica says that it leads.
pub leader_state_lem :
    (s : GroupState) (id : ℕ) → s.leader_id ≡ some id → Elected s.replicas (leader_state s)
unfolding leader_state
leader_state_lem s id named = rw (named, leader_state) (all-Elected s.replicas)
