-- ===== src/RaftLog/Storage/Writing.antt =====
-- `Storage::write` of src/server/src/raftgroup/storage.rs, with new entries, against the log as one
-- list.
use mathlib.Core.Path.{subst}
use engula.Prelude.{
  [], false, inl, inr, lt_or_le, none, ok, refl, some, ◌-◌, List, Option, arith, length,
  length-append, max, min, unwrap_or, ℕ, ◌++◌, ◌+◌, ◌∷◌, ◌≡◌, ◌≤◌,
}
use engula.RaftLog.Cache.{append, back_index, LogEntry}
use engula.RaftLog.Cache.Appending.{
  append-entries_below, entry_at-replaced, leaves_gap, entries_below, joined, length-entries_below,
}
use engula.RaftLog.Cache.Runs.{back_index-IsRun, IsRun, entry_at}
use engula.RaftLog.Storage.{
  write_hard_state, LogCommand, add_entries, hard, hard_state_key, put_message, write, HardState,
  Storage,
}
use mathlib.Core.List.{append_assoc}
use engula.RaftLog.Storage.Terms.{StandsFor}

-- The log after the entries of an index and above are replaced.
abbrev pub replaced : List LogEntry → LogEntry → List LogEntry → List LogEntry
replaced log e es = entries_below e.index log ++ e ∷ es

-- The hard state after a task.
abbrev pub written_hard_state : Option HardState → Storage → HardState
written_hard_state hs s = unwrap_or hs s.hard_state

-- What a task with entries adds to the batch.
abbrev pub written_commands : Option HardState → List LogEntry → List LogCommand
written_commands none new_entries = add_entries new_entries ∷ []
written_commands (some hs) new_entries =
    put_message hard_state_key (hard hs) ∷ add_entries new_entries ∷ []

module _ (s : Storage) (log : List LogEntry) (j : ℕ) (e : LogEntry) (es : List LogEntry)
    (view : StandsFor s log j) (run : IsRun e.index (e ∷ es)) (low : s.first_index ≤ e.index)
    (high : e.index ≤ s.last_index + 1) where
  replaced-IsRun : IsRun s.first_index (replaced log e es)
  replaced-IsRun =
      let least : min s.first_index e.index ≡ s.first_index = omega (arith, low) in
      subst (λ x. IsRun x (replaced log e es)) least
        (joined e.index s.first_index log (e ∷ es) (view.0) run (omega (arith, high, view.1)))

  log_end : e.index + length (e ∷ es) ≡ s.first_index + length (replaced log e es)
  log_end = omega (
    arith,
    length-append (entries_below e.index log) (e ∷ es),
    length-entries_below e.index s.first_index log (view.0),
    low,
    high,
    view.1,
  )

  replaced_cache-IsRun : IsRun (min j e.index) (replaced s.cache.entries e es)
  replaced_cache-IsRun =
      joined e.index j s.cache.entries (e ∷ es) (view.3) run (omega (arith, high, view.4))

  cache_end : min j e.index + length (replaced s.cache.entries e es) ≡ e.index + length (e ∷ es)
  cache_end = omega (
    arith,
    length-append (entries_below e.index s.cache.entries) (e ∷ es),
    length-entries_below e.index j s.cache.entries (view.3),
    high,
    view.4,
  )

  same_from :
      (k : ℕ)
      → max (min j e.index) s.first_index ≤ k
      → entry_at k (replaced s.cache.entries e es) ≡ entry_at k (replaced log e es)
  same_from k h = elim (lt_or_le k e.index) [
    | inl old ↦
        let at : max j s.first_index + (k - max j s.first_index) ≡ k = omega (arith, h, old) in
        let kept : entry_at k s.cache.entries ≡ entry_at k log =
          subst (λ x. entry_at x s.cache.entries ≡ entry_at x log) at
            (view.5 (k - max j s.first_index)) in
        ground (
          arith,
          old,
          kept,
          entry_at-replaced k e.index s.cache.entries (e ∷ es) run,
          entry_at-replaced k e.index log (e ∷ es) run,
        )
    | inr fresh ↦ ground (
      arith,
      fresh,
      entry_at-replaced k e.index s.cache.entries (e ∷ es) run,
      entry_at-replaced k e.index log (e ∷ es) run,
    )
  ]

  replaced-same :
      (n : ℕ)
      → entry_at (max (min j e.index) s.first_index + n) (replaced s.cache.entries e es)
        ≡ entry_at (max (min j e.index) s.first_index + n) (replaced log e es)
  replaced-same n = same_from (max (min j e.index) s.first_index + n) (omega arith)

  -- The storage after the entries are written.
  abbrev after : Option HardState → Storage
  after hs = record s {
    hard_state = written_hard_state hs s;
    cache = record { entries = replaced s.cache.entries e es };
    last_index = e.index + length es;
  }

  after-StandsFor :
      (hs : Option HardState) → StandsFor (after hs) (replaced log e es) (min j e.index)
  after-StandsFor hs = (
    replaced-IsRun,
    omega (arith, log_end),
    view.2,
    replaced_cache-IsRun,
    omega (arith, cache_end),
    replaced-same,
  )

  cache_connects :
      (cs : List LogEntry)
      → IsRun j cs
      → j + length cs ≡ s.last_index + 1
      → leaves_gap e.index (back_index cs) ≡ false
  cache_connects [] r h = refl
  cache_connects (c ∷ cs) r h = ground (arith, back_index-IsRun j c cs r, h, high)

  append-replaced :
      append (e ∷ es) s.cache ≡ ok (record { entries = replaced s.cache.entries e es })
  append-replaced =
      rw
        (
          append-entries_below s.cache e es (j, view.3),
          cache_connects s.cache.entries (view.3) (view.4),
        )
        refl

  last_written : unwrap_or (back_index es) e.index ≡ e.index + length es
  last_written = ground (arith, back_index-IsRun e.index e es run)

  -- New entries that start in the log, or just behind it, replace the log from there on. The hard
  -- state of the task is taken over, and both are added to the batch, the hard state first.
  pub write-entries :
      (hs : Option HardState) (batch : List LogCommand)
      → (s' : Storage) × (batch' : List LogCommand) × (write
            (record { hard_state = hs; snapshot = none; entries = e ∷ es })
            (s, batch)
          ≡ ok (s', batch'))
        × StandsFor s' (replaced log e es) (min j e.index)
        × (s'.hard_state ≡ unwrap_or hs s.hard_state)
        × (batch' ≡ batch ++ written_commands hs (e ∷ es))
  unfolding write write_hard_state
  write-entries none batch = (
    after none,
    batch ++ add_entries (e ∷ es) ∷ [],
    rw (append-replaced, last_written) refl,
    after-StandsFor none,
    refl,
    refl,
  )
  write-entries (some hs) batch = (
    after (some hs),
    (batch ++ put_message hard_state_key (hard hs) ∷ []) ++ add_entries (e ∷ es) ∷ [],
    rw (append-replaced, last_written) refl,
    after-StandsFor (some hs),
    refl,
    append_assoc batch (put_message hard_state_key (hard hs) ∷ []) (add_entries (e ∷ es) ∷ []),
  )
