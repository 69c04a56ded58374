-- ===== src/Root/Liveness.antt =====
-- src/server/src/root/liveness.rs: until when a node counts as alive. The clock's reading, in
-- milliseconds, is an argument of each call; its sum with the threshold fits a u128.
use engula.HashMap
use engula.Prelude.{
  ==_iff, Bool, Bool-cases, List, Option, Option-cases, [], ap, arith, false, if◌then◌else◌, inl,
  inr, is_some, ltb, none, refl, some, sym, unwrap_or, ℕ, ◌+◌, ◌==◌, ◌∙◌, ◌∷◌, ◌≡◌, ◌≤◌,
}
use engula.HashMap.{Map, nat_key}

-- The threshold, and the expirations of the nodes that were seen.
pub record Liveness : Type 0 where
  pub liveness_threshold : ℕ
  pub nodes : Map ℕ ℕ

unfoldable pub new_expiration : Liveness → ℕ → ℕ
new_expiration s now = now + s.liveness_threshold

-- `NodeLiveness::is_dead` and `is_alive`
unfoldable pub is_dead : ℕ → ℕ → Bool
is_dead expiration now = ltb expiration now

unfoldable pub is_alive : ℕ → ℕ → Bool
is_alive expiration now = ltb now expiration

-- `Liveness::get`: a node that was never seen gets the whole threshold.
unfoldable pub node_liveness : ℕ → ℕ → Liveness → ℕ
unfolding new_expiration
node_liveness node now s = unwrap_or (HashMap.get node s.nodes) (new_expiration s now)

-- A clock that went back does not shorten what a node has.
unfoldable pub renewed_expiration : ℕ → Option ℕ → ℕ
renewed_expiration renew none = renew
renewed_expiration renew (some expiration) = if ltb expiration renew then renew else expiration

unfoldable pub renew : ℕ → ℕ → Liveness → Liveness
unfolding new_expiration renewed_expiration
renew node now s = record s {
  nodes =
      HashMap.insert node (renewed_expiration (new_expiration s now) (HashMap.get node s.nodes))
        s.nodes;
}

unfoldable pub init_node_if_first_seen : ℕ → ℕ → Liveness → Liveness
unfolding new_expiration
init_node_if_first_seen node now s =
    if is_some (HashMap.get node s.nodes)
    then s
    else record s { nodes = HashMap.insert node (new_expiration s now) s.nodes }

unfoldable pub reset_liveness : Liveness → Liveness
reset_liveness s = record s { nodes = [] }

-- What the root server does on an answer to a heartbeat, and on a failed one.
pub data Heard : Type 0 where
  answered failed : ℕ → ℕ → Heard

unfoldable pub hear : Heard → Liveness → Liveness
unfolding renew init_node_if_first_seen
hear (answered node now) s = renew node now s
hear (failed node now) s = init_node_if_first_seen node now s

unfoldable pub hear_all : List Heard → Liveness → Liveness
unfolding hear
hear_all [] s = s
hear_all (h ∷ hs) s = hear_all hs (hear h s)

-- The node lives until a time at least.
unfoldable pub LivesUntil : ℕ → ℕ → Liveness → Type 0
LivesUntil node until s =
    (expiration : ℕ) × (HashMap.get node s.nodes ≡ some expiration) × (until ≤ expiration)

renewed_later : (renew expiration : ℕ) → expiration ≤ renewed_expiration renew (some expiration)
unfolding renewed_expiration
renewed_later renew expiration = ground arith

renewed_enough : (renew : ℕ) (o : Option ℕ) → renew ≤ renewed_expiration renew o
unfolding renewed_expiration
renewed_enough renew none = omega arith
renewed_enough renew (some expiration) = ground arith

renew-LivesUntil :
    (node until other_node now : ℕ) (s : Liveness)
    → LivesUntil node until s
    → LivesUntil node until (renew other_node now s)
unfolding LivesUntil renew
renew-LivesUntil node until other_node now s (expiration, at, long) =
    elim (Bool-cases (other_node == node)) [
      | inl same ↦
          let is_node = (==_iff other_node node).0 same in
          (
            renewed_expiration (new_expiration s now) (some expiration),
            HashMap.get-insert node other_node _ s.nodes ∙ rw (same, is_node, at) refl,
            omega (arith, long, renewed_later (new_expiration s now) expiration),
          )
      | inr unlike ↦ (expiration, HashMap.get-insert node other_node _ s.nodes ∙ rw unlike at, long)
    ]

init-LivesUntil :
    (node until other_node now : ℕ) (s : Liveness)
    → LivesUntil node until s
    → LivesUntil node until (init_node_if_first_seen other_node now s)
unfolding LivesUntil init_node_if_first_seen
init-LivesUntil node until other_node now s (expiration, at, long) =
    elim (Option-cases (HashMap.get other_node s.nodes)) [
      | inr (x, seen) ↦ rw (seen, init_node_if_first_seen) (expiration, at, long)
      | inl unseen ↦
          rw (unseen, init_node_if_first_seen)
            (
              expiration,
              HashMap.kept node other_node (new_expiration s now) s.nodes
                    (λ e. cc (sym unseen ∙ ap (λ i. HashMap.get i s.nodes) e ∙ at))
                  ∙ at,
              long,
            )
    ]

renew_lives :
    (node time : ℕ) (s : Liveness)
    → LivesUntil node (time + s.liveness_threshold) (renew node time s)
unfolding LivesUntil renew new_expiration
renew_lives node time s = (
  _,
  HashMap.put_in node (renewed_expiration (time + s.liveness_threshold) (HashMap.get node s.nodes))
      s.nodes,
  renewed_enough (time + s.liveness_threshold) (HashMap.get node s.nodes),
)

not_before : (a b : ℕ) → b ≤ a → ltb a b ≡ false
not_before a b h = ground (arith, h)

hear_all-LivesUntil :
    (node until : ℕ) (hs : List Heard) (s : Liveness)
    → LivesUntil node until s
    → LivesUntil node until (hear_all hs s)
unfolding hear_all hear
hear_all-LivesUntil node until [] s h = h
hear_all-LivesUntil node until (answered other_node now ∷ hs) s h =
    hear_all-LivesUntil node until hs _ (renew-LivesUntil node until other_node now s h)
hear_all-LivesUntil node until (failed other_node now ∷ hs) s h =
    hear_all-LivesUntil node until hs _ (init-LivesUntil node until other_node now s h)

-- A node that answered a heartbeat does not count as dead before the threshold after its answer has
-- passed, whatever other answers and failures are heard since and whatever the clock read at them.
pub hear_all-not_dead :
    (node time now later : ℕ) (hs : List Heard) (s : Liveness)
    → now ≤ time + s.liveness_threshold
    → is_dead (node_liveness node later (hear_all (answered node time ∷ hs) s)) now ≡ false
unfolding is_dead node_liveness hear_all hear LivesUntil
hear_all-not_dead node time now later hs s soon =
    let lives =
      hear_all-LivesUntil node (time + s.liveness_threshold) hs (renew node time s)
        (renew_lives node time s) in
    rw lives.1 (not_before lives.0 now (omega (arith, soon, lives.2)))
