-- ===== src/RaftLog/Cache/Lookup.antt =====
-- `EntryCache::entry` of src/server/src/raftgroup/storage.rs against a search by index.
use mathlib.Core.Path.{subst}
use engula.RaftLog.Cache.{LogEntry, at_position, entry}
use engula.RaftLog.Cache.Runs.{
  entry_at-above, entry_at-below, entry_at-inside, get_elem?-IsRun, IsRun, entry_at,
}
use engula.Prelude.{
  arith, get_elem?, inl, inr, lt_or_le, none, some, ◌-◌, ◌<◌, ◌≤◌, ◌⊎◌, List, if◌then◌else◌, length,
  ltb, ok, out_of_bounds, panic, ℕ, ◌+◌, ◌∷◌, ◌≡◌,
}

-- The position of an index in consecutive entries.
get_elem?-entry_at :
    (i k : ℕ) (es : List LogEntry) → IsRun i es → i ≤ k → get_elem? es (k - i) ≡ entry_at k es
get_elem?-entry_at i k es r h =
    subst (λ x. get_elem? es (k - i) ≡ entry_at x es) (omega arith) (get_elem?-IsRun i (k - i) es r)

module _ (i : ℕ) (e : LogEntry) (es : List LogEntry) (r : IsRun i (e ∷ es)) where
  lookup_cases :
      (k : ℕ)
      → ((k < i) × (entry_at k (e ∷ es) ≡ none))
        ⊎ ((i ≤ k)
            × (k < i + length (e ∷ es))
            × ((f : LogEntry) × (entry_at k (e ∷ es) ≡ some f) × (f.index ≡ k)))
        ⊎ ((i + length (e ∷ es) ≤ k) × (entry_at k (e ∷ es) ≡ none))
  lookup_cases k = elim (lt_or_le k i) [
    | inl low ↦ inl (low, entry_at-below i k (e ∷ es) r low)
    | inr high ↦ elim (lt_or_le k (i + length (e ∷ es))) [
      | inl low ↦ inr (inl (high, low, entry_at-inside i k (e ∷ es) r high low))
      | inr above ↦ inr (inr (above, entry_at-above i k (e ∷ es) r above))
    ]
  ]

  -- A look-up in a cache of consecutive entries panics at an index above the last entry, and is
  -- a search by index at any other one.
  pub entry_lem :
      (k : ℕ)
      → entry k (record { entries = e ∷ es })
        ≡ (if ltb k (i + length (e ∷ es)) then ok (entry_at k (e ∷ es)) else panic out_of_bounds)
  unfolding entry at_position
  entry_lem k = elim (lookup_cases k) [
    | inl below ↦ ground (arith, r.0, below)
    | inr (inl (high, low, (f, found, at))) ↦
        ground (arith, r.0, get_elem?-entry_at i k (e ∷ es) r high, found)
    | inr (inr (above, absent)) ↦
        ground (arith, r.0, get_elem?-entry_at i k (e ∷ es) r (omega (arith, above)), absent)
  ]
