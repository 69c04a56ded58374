-- ===== src/RaftLog/Storage/Terms.antt =====
-- The terms that src/server/src/raftgroup/storage.rs reads, against the log as one list.
use engula.Prelude.{
  [], inl, inr, lt_or_le, ◌-◌, err, high_out_of_bound, if◌then◌else◌, ltb, panic, ◌==◌, arith, sym,
  List, Option, Outcome, false, is_some, length, max, none, ok, refl, some, true, ℕ, ◌+◌, ◌<◌,
  ◌>>=◌, ◌∷◌, ◌≡◌, ◌≤◌,
}
use engula.RaftLog.Cache.Runs.{entry_at-inside, IsRun, entry_at}
use engula.RaftLog.Storage.{
  check_range, compacted, truncated_term, RaftEngine, RaftError, Storage, truncated_index,
}
use engula.RaftLog.Storage.Reads.{of_cache, term, cached_term, entry_term, find_term, starts_by}
use engula.RaftLog.Cache.Lookup.{entry_lem}
use mathlib.Core.Path.{subst}
use engula.RaftLog.Cache.{entry, EntryCache, LogEntry, first_index}

-- The storage stands for `log`, of which the cache has the entries from `j` on. The cache may also
-- hold entries that are compacted.
abbrev pub StandsFor : Storage → List LogEntry → ℕ → Type 0
StandsFor s log j =
    IsRun s.first_index log
    × (s.last_index + 1 ≡ s.first_index + length log)
    × (truncated_index s + 1 ≡ s.first_index)
    × IsRun j s.cache.entries
    × (j + length s.cache.entries ≡ s.last_index + 1)
    × ((n : ℕ)
        → entry_at (max j s.first_index + n) s.cache.entries
          ≡ entry_at (max j s.first_index + n) log)

-- The term of an entry in a list.
abbrev pub log_term : ℕ → List LogEntry → Outcome RaftError ℕ
log_term idx log = entry_term (entry_at idx log)

module _ (engine : RaftEngine) (replica_id idx : ℕ) (log : List LogEntry) (j : ℕ) where
  find_term-stored :
      (c : EntryCache)
      → engine.get_entry replica_id idx ≡ ok (entry_at idx log)
      → starts_by idx (first_index c) ≡ false
      → find_term engine replica_id idx c ≡ log_term idx log
  unfolding find_term
  find_term-stored c read h = rw (h, read) refl

  cached-log_term :
      (o : Option LogEntry) → is_some o ≡ true → (of_cache (ok o) >>= cached_term) ≡ entry_term o
  cached-log_term none h = cc
  cached-log_term (some e) h = refl

  starts_by-first :
      (e : LogEntry) (es : List LogEntry)
      → IsRun j (e ∷ es)
      → j ≤ idx
      → starts_by idx (first_index (record { entries = e ∷ es })) ≡ true
  starts_by-first e es r low = ground (arith, r.0, low)

  entry-inside :
      (e : LogEntry) (es : List LogEntry)
      → IsRun j (e ∷ es)
      → idx < j + length (e ∷ es)
      → entry idx (record { entries = e ∷ es }) ≡ ok (entry_at idx (e ∷ es))
  entry-inside e es r high = rw (entry_lem j e es r idx) (ground (arith, high))

  find_term-cached :
      (e : LogEntry) (es : List LogEntry)
      → IsRun j (e ∷ es)
      → j ≤ idx
      → idx < j + length (e ∷ es)
      → entry_at idx (e ∷ es) ≡ entry_at idx log
      → find_term engine replica_id idx (record { entries = e ∷ es }) ≡ log_term idx log
  unfolding find_term
  find_term-cached e es r low high same =
      let found = entry_at-inside j idx (e ∷ es) r low high in
      rw (starts_by-first e es r low, entry-inside e es r high, same)
        (cached-log_term (entry_at idx log) (rw (sym same, found.1) refl))

module _ (engine : RaftEngine) (replica_id idx : ℕ) (log : List LogEntry) (j : ℕ) where
  starts_by-late :
      (es : List LogEntry)
      → IsRun j es
      → idx < j
      → starts_by idx (first_index (record { entries = es })) ≡ false
  starts_by-late [] r low = refl
  starts_by-late (e ∷ es) r low = ground (arith, r.0, low)

  find_term-reached :
      (es : List LogEntry)
      → IsRun j es
      → j ≤ idx
      → idx < j + length es
      → entry_at idx es ≡ entry_at idx log
      → find_term engine replica_id idx (record { entries = es }) ≡ log_term idx log
  find_term-reached [] r low high same = absurd (omega (arith, low, high))
  find_term-reached (e ∷ es) r low high same =
      find_term-cached engine replica_id idx log j e es r low high same

module _ (engine : RaftEngine) (s : Storage) (log : List LogEntry) (j : ℕ)
    (view : StandsFor s log j)
    (stored : (n : ℕ)
      → s.first_index + n < j
      → engine.get_entry s.replica_id (s.first_index + n)
        ≡ ok (entry_at (s.first_index + n) log)) where
  run : IsRun j s.cache.entries
  run = view.3

  end : j + length s.cache.entries ≡ s.last_index + 1
  end = view.4

  same :
      (n : ℕ)
      → entry_at (max j s.first_index + n) s.cache.entries ≡ entry_at (max j s.first_index + n) log
  same = view.5

  find_term-log_term :
      (idx : ℕ)
      → s.first_index ≤ idx
      → idx ≤ s.last_index
      → find_term engine s.replica_id idx s.cache ≡ log_term idx log
  find_term-log_term idx low high = elim (lt_or_le idx j) [
    | inl below ↦
        find_term-stored engine s.replica_id idx log j s.cache
          (subst (λ k. engine.get_entry s.replica_id k ≡ ok (entry_at k log)) (omega (arith, low))
            (stored (idx - s.first_index) (omega (arith, low, below))))
          (starts_by-late engine s.replica_id idx log j s.cache.entries run below)
    | inr above ↦
        find_term-reached engine s.replica_id idx log j s.cache.entries run above
          (omega (arith, end, high))
          (subst (λ k. entry_at k s.cache.entries ≡ entry_at k log) (omega (arith, low, above))
            (same (idx - max j s.first_index)))
  ]

  -- Reading a term gives that of the log's entry, or of the truncated one just before the log. It
  -- panics above the log, and fails as compacted below the truncated index.
  pub term_lem :
      (idx : ℕ)
      → term engine idx s ≡ (
          if idx == truncated_index s
          then ok (truncated_term s)
          else if ltb s.last_index idx
          then panic high_out_of_bound
          else if ltb idx s.first_index
          then err compacted
          else log_term idx log)
  unfolding term check_range
  term_lem idx = elim (lt_or_le idx s.first_index) [
    | inl below ↦ ground (arith, below, view.2, view.1)
    | inr above ↦ elim (lt_or_le s.last_index idx) [
      | inl out ↦ ground (arith, above, out, view.2)
      | inr inside ↦ ground (arith, above, inside, view.2, find_term-log_term idx above inside)
    ]
  ]
