-- ===== src/RaftLog/Cache/Draining.antt =====
-- `EntryCache::drains_to` of src/server/src/raftgroup/storage.rs.
use engula.RaftLog.Cache.{LogEntry, EntryCache, drain_to, drains_to}
use engula.RaftLog.Cache.Runs.{entry_at-drop, IsRun-drop, IsRun, entry_at}
use engula.Prelude.{
  List, length-drop, [], arith, drop, ◌-◌, ◌/◌, ◌∷◌, length, ok, ℕ, ◌+◌, ◌<◌, ◌≡◌, ◌≤◌,
}

-- The cache holds consecutive entries, among them the one of an index.
abbrev pub ReachesIndex : ℕ → EntryCache → Type 0
ReachesIndex k c = (i : ℕ) × IsRun i c.entries × (i ≤ k) × (k < i + length c.entries)

-- Draining succeeds with a cache that reaches the applied index, too, has the same entries from
-- there on, and no more entries than before.
pub Drained : ℕ → EntryCache → Type 0
Drained applied c =
    (c' : EntryCache) × (drains_to applied c ≡ ok c')
    × ReachesIndex applied c'
    × ((n : ℕ) → entry_at (applied + n) c'.entries ≡ entry_at (applied + n) c.entries)
    × (length c'.entries ≤ length c.entries)

drains_to-entries :
    (applied : ℕ) (es : List LogEntry)
    → ReachesIndex applied (record { entries = es })
    → Drained applied (record { entries = es })
unfolding Drained drains_to drain_to
drains_to-entries applied [] (i, r, low, high) = absurd (omega (arith, low, high))
drains_to-entries applied (e ∷ es) (i, r, low, high) =
    let n = (applied - i) / 2 in
    (
      record { entries = drop n (e ∷ es) },
      ground (arith, r.0, low, high),
      (
        i + n,
        IsRun-drop n i (e ∷ es) (omega (arith, low, high)) r,
        omega (arith, low, high),
        omega (arith, length-drop n (e ∷ es), low, high),
      ),
      λ d. ground (arith, entry_at-drop n i (applied + d) (e ∷ es) r, low),
      omega (arith, length-drop n (e ∷ es)),
    )

-- Draining a cache that reaches the applied index succeeds, keeps every entry from the applied
-- index on, adds none, and the cache still reaches the applied index.
pub drains_to_lem : (applied : ℕ) (c : EntryCache) → ReachesIndex applied c → Drained applied c
drains_to_lem applied c h = drains_to-entries applied c.entries h
