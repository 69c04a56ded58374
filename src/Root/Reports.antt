-- ===== src/Root/Reports.antt =====
-- What the reports of nodes to src/server/src/root do to the tables of groups and replicas.
use engula.HashMap
use mathlib.Core.Bool.{false≢true}
use mathlib.Core.Path.{subst, ap₂}
use engula.HashMap.{pair_beq, pair_beq_iff, nat_key, pair_key, Map}
use engula.Prelude.{
  All, List, Option-cases, [], false, if◌then◌else◌, leb, on_option, some_injective, some_parts,
  ◌∷◌, ==_iff, Bool-cases, Option, ap, arith, inl, inr, none, refl, some, sym, ℕ, ◌==◌, ◌∙◌, ◌≡◌,
  ◌≤◌,
}
use engula.Root.{
  Reporting, fresh_replica, is_known, report, report_all, report_one, start_reporting, GroupUpdates,
  Tables, fresh_group, get_group, get_replica_state, put_group, put_replica_state,
  update_group_replica,
}
use engula.Meta.{GroupDesc, ReplicaState}

-- The update of a group holds that group's descriptor and a replica of that group.
unfoldable pub IsOfGroup : GroupUpdates → Type 0
IsOfGroup u =
    ((desc : GroupDesc) → u.group_desc ≡ some desc → desc.id ≡ u.group_id)
    × ((state : ReplicaState) → u.replica_state ≡ some state → state.group_id ≡ u.group_id)

-- No group's epoch and no replica's term goes back.
unfoldable pub HasGrown : Tables → Tables → Type 0
HasGrown t s =
    ((id : ℕ) (desc : GroupDesc)
      → get_group id t ≡ some desc
      → (later : GroupDesc) × (get_group id s ≡ some later) × (desc.epoch ≤ later.epoch))
    × ((group_id replica_id : ℕ) (state : ReplicaState)
        → get_replica_state group_id replica_id t ≡ some state
        → (later : ReplicaState) × (get_replica_state group_id replica_id s ≡ some later)
          × (state.term ≤ later.term))

HasGrown-refl : (t : Tables) → HasGrown t t
unfolding HasGrown
HasGrown-refl t = (
  λ id desc at. (desc, at, omega arith),
  λ group_id replica_id state at. (state, at, omega arith),
)

HasGrown-trans : (t s u : Tables) → HasGrown t s → HasGrown s u → HasGrown t u
unfolding HasGrown
HasGrown-trans t s u (g, r) (h, q) = (
  λ id desc at.
      let mid = g id desc at in
      let end = h id mid.0 mid.1 in (end.0, end.1, omega (arith, mid.2, end.2)),
  λ group_id replica_id state at.
      let mid = r group_id replica_id state at in
      let end = q group_id replica_id mid.0 mid.1 in (end.0, end.1, omega (arith, mid.2, end.2)),
)

-- A descriptor that is written is newer than the one it replaces.
NewGroup : Option GroupDesc → Tables → Type 0
NewGroup none t = Unit
NewGroup (some desc) t = (pre : GroupDesc) → get_group desc.id t ≡ some pre → pre.epoch ≤ desc.epoch

NewReplica : Option ReplicaState → Map (ℕ × ℕ) ReplicaState → Type 0
NewReplica none m = Unit
NewReplica (some state) m =
    (pre : ReplicaState)
    → HashMap.get (state.group_id, state.replica_id) m ≡ some pre
    → pre.term ≤ state.term

put_group-get :
    (o : Option GroupDesc) (t : Tables)
    → NewGroup o t
    → (id : ℕ) (desc : GroupDesc) → get_group id t ≡ some desc
    → (later : GroupDesc) × (get_group id (put_group o t) ≡ some later) × (desc.epoch ≤ later.epoch)
unfolding NewGroup
put_group-get none t fresh id desc at = (desc, at, omega arith)
put_group-get (some d) t fresh id desc at = elim (Bool-cases (d.id == id)) [
  | inl same ↦
      let is_id = (==_iff d.id id).0 same in
      (
        d,
        HashMap.get-insert id d.id d t.groups ∙ rw same refl,
        fresh desc (ap (λ i. get_group i t) is_id ∙ at),
      )
  | inr unlike ↦ (desc, HashMap.get-insert id d.id d t.groups ∙ rw unlike at, omega arith)
]

put_replica-get :
    (o : Option ReplicaState) (t : Tables)
    → NewReplica o t.replica_states
    → (group_id replica_id : ℕ) (state : ReplicaState)
    → get_replica_state group_id replica_id t ≡ some state
    → (later : ReplicaState) × (get_replica_state group_id replica_id (put_replica_state o t)
        ≡ some later)
      × (state.term ≤ later.term)
unfolding NewReplica
put_replica-get none t fresh group_id replica_id state at = (state, at, omega arith)
put_replica-get (some d) t fresh group_id replica_id state at =
    elim (Bool-cases (pair_beq (d.group_id, d.replica_id) (group_id, replica_id))) [
      | inl same ↦
          let is_id = (pair_beq_iff (d.group_id, d.replica_id) (group_id, replica_id)).0 same in
          (
            d,
            ap (λ k. HashMap.get k (HashMap.insert (d.group_id, d.replica_id) d t.replica_states))
                  (sym is_id)
                ∙ HashMap.put_in (d.group_id, d.replica_id) d t.replica_states,
            fresh state (ap (λ k. HashMap.get k t.replica_states) is_id ∙ at),
          )
      | inr unlike ↦ (
        state,
        HashMap.kept (group_id, replica_id) (d.group_id, d.replica_id) d t.replica_states
              (λ e.
                false≢true (
                  sym unlike
                  ∙ (pair_beq_iff (d.group_id, d.replica_id) (group_id, replica_id)).1 e))
            ∙ at,
        omega arith,
      )
    ]

later_epoch : (a b c : ℕ) → leb a b ≡ false → b ≡ c → c ≤ a
later_epoch a b c h e = ground (arith, h, e)

unknown_term : (old state : ReplicaState) → is_known old state ≡ false → old.term ≤ state.term
unfolding is_known
unknown_term old state h = ground (arith, h)

grown_groups :
    (group : Option GroupDesc) (replica : Option ReplicaState) (t : Tables)
    → NewGroup group t
    → (id : ℕ) (desc : GroupDesc) → get_group id t ≡ some desc
    → (later : GroupDesc) × (get_group id (update_group_replica group replica t) ≡ some later)
      × (desc.epoch ≤ later.epoch)
unfolding update_group_replica
grown_groups group none t g = put_group-get group t g
grown_groups group (some d) t g = put_group-get group t g

update_group_replica-HasGrown :
    (group : Option GroupDesc) (replica : Option ReplicaState) (t : Tables)
    → NewGroup group t
    → NewReplica replica t.replica_states
    → HasGrown t (update_group_replica group replica t)
unfolding HasGrown update_group_replica
update_group_replica-HasGrown none replica t g r =
    (grown_groups none replica t g, put_replica-get replica t r)
update_group_replica-HasGrown (some d) replica t g r =
    (grown_groups (some d) replica t g, put_replica-get replica (put_group (some d) t) r)

newer_desc :
    (o : Option GroupDesc) (desc : GroupDesc) {out : GroupDesc}
    → (on_option o (some desc) λ pre. if leb desc.epoch pre.epoch then none else some desc)
      ≡ some out
    → (desc ≡ out) × ((pre : GroupDesc) → o ≡ some pre → pre.epoch ≤ desc.epoch)
newer_desc none desc h = (some_injective h, λ pre at. cc)
newer_desc (some old) desc h = elim (Bool-cases (leb desc.epoch old.epoch)) [
  | inl stale ↦ cc (sym (ap (λ b. if b then none else some desc) stale) ∙ h)
  | inr newer ↦ (
    some_injective (sym (ap (λ b. if b then none else some desc) newer) ∙ h),
    λ pre at.
        later_epoch desc.epoch old.epoch pre.epoch newer (ap (λ d. d.epoch) (some_injective at)),
  )
]

newer_state :
    (o : Option ReplicaState) (state : ReplicaState) {out : ReplicaState}
    → (on_option o (some state) λ pre. if is_known pre state then none else some state) ≡ some out
    → (state ≡ out) × ((pre : ReplicaState) → o ≡ some pre → pre.term ≤ state.term)
newer_state none state h = (some_injective h, λ pre at. cc)
newer_state (some old) state h = elim (Bool-cases (is_known old state)) [
  | inl stale ↦ cc (sym (ap (λ b. if b then none else some state) stale) ∙ h)
  | inr newer ↦ (
    some_injective (sym (ap (λ b. if b then none else some state) newer) ∙ h),
    λ pre at. omega (arith, unknown_term old state newer, ap (λ d. d.term) (some_injective at)),
  )
]

fresh_group-NewGroup : (u : GroupUpdates) (t : Tables) → IsOfGroup u → NewGroup (fresh_group u t) t
unfolding NewGroup fresh_group IsOfGroup
fresh_group-NewGroup u t of_group = elim (Option-cases (fresh_group u t)) [
  | inl nothing ↦ subst (λ o. NewGroup o t) (sym nothing) tt
  | inr (out, is_out) ↦
      let parts = some_parts u.group_desc _ is_out in
      let newer = newer_desc (get_group u.group_id t) parts.0 parts.2 in
      subst (λ o. NewGroup o t) (sym is_out)
        (λ pre at.
          subst (λ d. pre.epoch ≤ d.epoch) newer.0
            (newer.1 pre (
              ap (λ i. get_group i t) (sym (of_group.0 parts.0 parts.1) ∙ ap (λ d. d.id) newer.0)
              ∙ at)))
]

fresh_replica-NewReplica :
    (u : GroupUpdates) (t : Tables) → IsOfGroup u → NewReplica (fresh_replica u t) t.replica_states
unfolding NewReplica fresh_replica IsOfGroup
fresh_replica-NewReplica u t of_group = elim (Option-cases (fresh_replica u t)) [
  | inl nothing ↦ subst (λ o. NewReplica o t.replica_states) (sym nothing) tt
  | inr (out, is_out) ↦
      let parts = some_parts u.replica_state _ is_out in
      let newer = newer_state (get_replica_state u.group_id parts.0.replica_id t) parts.0 parts.2 in
      subst (λ o. NewReplica o t.replica_states) (sym is_out)
        (λ pre at.
          subst (λ d. pre.term ≤ d.term) newer.0
            (newer.1 pre (
              ap (λ i. HashMap.get i t.replica_states)
                (ap₂ (λ a b. (a, b))
                  (sym (of_group.1 parts.0 parts.1) ∙ ap (λ d. d.group_id) newer.0)
                  (ap (λ d. d.replica_id) newer.0))
              ∙ at)))
]

report_all-HasGrown :
    (us : List GroupUpdates) (r : Reporting)
    → All IsOfGroup us
    → HasGrown r.tables (report_all us r).tables
unfolding report_all report_one
report_all-HasGrown [] r all = HasGrown-refl r.tables
report_all-HasGrown (u ∷ us) r (of_group, all) =
    HasGrown-trans r.tables (report_one u r).tables (report_all us (report_one u r)).tables
      (update_group_replica-HasGrown (fresh_group u r.tables) (fresh_replica u r.tables) r.tables
        (fresh_group-NewGroup u r.tables of_group) (fresh_replica-NewReplica u r.tables of_group))
      (report_all-HasGrown us (report_one u r) all)

-- After a report, in which each update holds the descriptor and a replica of its own group, no group
-- that was known has a smaller epoch and no replica that was known a smaller term.
pub report-HasGrown :
    (updates : List GroupUpdates) (t : Tables)
    → All IsOfGroup updates
    → HasGrown t (report updates t).0
unfolding report
report-HasGrown updates t all = report_all-HasGrown updates (start_reporting t) all
