-- ===== src/RaftLog/Storage/Compaction.antt =====
-- `Storage::compact_to` of src/server/src/raftgroup/storage.rs.
use mathlib.Core.Path.{subst}
use engula.Prelude.{
  Bool-cases, inl, inr, length, length-drop, refl, sym, Option, arith, drop, false, max, or_else,
  true, ◌+◌, ◌<◌, ◌≡◌, ◌≤◌, Bool, List, [], debug_assert, if◌then◌else◌, ltb, none, ok, some,
  unwrap, ℕ, ◌++◌, ◌-◌, ◌>>=◌, ◌>>◌, ◌∷◌,
}
use engula.RaftLog.Storage.{
  check_range, Key, Message, hard_state_key, LogCommand, RaftEngine, RaftLocalState, Storage,
  compact, hard, local, local_state_key, put_message,
}
use engula.RaftLog.Storage.Reads.{term, unwrap_result}
use engula.RaftLog.Cache.{LogEntry}
use engula.RaftLog.Cache.Runs.{IsRun, IsRun-drop, entry_at, entry_at-drop, entry_at-inside}
use engula.RaftLog.Storage.Terms.{log_term, term_lem, StandsFor}
use engula.Error.{Error, Result}

-- The state of a log that starts behind the index before `to`.
abbrev compacted_state : ℕ → ℕ → Storage → RaftLocalState
compacted_state to term s = record {
  replica_id = s.replica_id;
  last_truncated = some (record { index = to - 1; term = term });
}

-- `compact_to`, with the batch that it returns. The second message has the key of the first one,
-- as in the code.
compaction : ℕ → ℕ → Storage → Storage × List LogCommand
compaction to term s =
    let local_state = compacted_state to term s in
    let batch = compact to ∷ put_message local_state_key (local local_state) ∷ [] in
    if ltb s.hard_state.commit s.first_index
    then (
      record s {
        hard_state = record (s.hard_state) { commit = s.first_index };
        local_state = local_state;
      },
      batch
          ++ put_message local_state_key (hard (record (s.hard_state) { commit = s.first_index }))
            ∷ [],
    )
    else (record s { local_state = local_state }, batch)

unfoldable pub compact_to : RaftEngine → Bool → ℕ → Storage → Result (Storage × List LogCommand)
unfolding compaction
compact_to engine checks to s = do
  debug_assert checks (ltb s.first_index to)
  let moved = record s { first_index = to }
  truncated ← unwrap (if ltb to 1 then none else some (to - 1))
  t ← unwrap_result (term engine truncated moved)
  ok (compaction to t moved)

abbrev same_key : Key → Key → Bool
same_key hard_state_key hard_state_key = true
same_key local_state_key local_state_key = true
same_key _ _ = false

-- The last message that a batch puts under a key.
abbrev pub last_put : Key → List LogCommand → Option Message
last_put key [] = none
last_put key (put_message k m ∷ rest) =
    or_else (last_put key rest) (if same_key k key then some m else none)
last_put key (_ ∷ rest) = last_put key rest

module _ (engine : RaftEngine) (s : Storage) (log : List LogEntry) (j : ℕ)
    (view : StandsFor s log j)
    (stored : (n : ℕ)
      → s.first_index + n < j
      → engine.get_entry s.replica_id (s.first_index + n) ≡ ok (entry_at (s.first_index + n) log))
    (to : ℕ) (low : s.first_index < to) (high : to ≤ s.last_index + 1) where
  last_dropped : (e : LogEntry) × (entry_at (to - 1) log ≡ some e) × (e.index ≡ to - 1)
  last_dropped =
      entry_at-inside s.first_index (to - 1) log (view.0) (omega (arith, low))
        (omega (arith, low, high, view.1))

  term_moved : term engine (to - 1) (record s { first_index = to }) ≡ term engine (to - 1) s
  unfolding term check_range
  term_moved = refl

  term_logged : log_term (to - 1) log ≡ ok (last_dropped.0.term)
  term_logged = rw (last_dropped.1) refl

  term_of_dropped : term engine (to - 1) (record s { first_index = to }) ≡ ok (last_dropped.0.term)
  term_of_dropped =
      rw (term_moved, term_lem engine s log j view stored (to - 1), sym (term_logged))
        (ground (arith, low, high, view.1, view.2))

  log_left : IsRun to (drop (to - s.first_index) log)
  log_left =
      let at : s.first_index + (to - s.first_index) ≡ to = omega (arith, low) in
      subst (λ x. IsRun x (drop (to - s.first_index) log)) at
        (IsRun-drop (to - s.first_index) s.first_index log (omega (arith, high, view.1)) (view.0))

  same_left :
      (n : ℕ)
      → entry_at (max j to + n) s.cache.entries
        ≡ entry_at (max j to + n) (drop (to - s.first_index) log)
  same_left n =
      let at : max j s.first_index + (max j to + n - max j s.first_index) ≡ max j to + n =
        omega (arith, low) in
      let kept : entry_at (max j to + n) s.cache.entries ≡ entry_at (max j to + n) log =
        subst (λ x. entry_at x s.cache.entries ≡ entry_at x log) at
          (view.5 (max j to + n - max j s.first_index)) in
      ground (
        arith,
        kept,
        low,
        entry_at-drop (to - s.first_index) s.first_index (max j to + n) log (view.0),
      )

  -- The storage and the batch after the compaction.
  abbrev outcome : Storage × List LogCommand
  outcome = compaction to (last_dropped.0.term) (record s { first_index = to })

  asserted : (checks : Bool) → debug_assert {E = Error} checks (ltb s.first_index to) ≡ ok tt
  asserted true = ground (arith, low)
  asserted false = refl

  positive : ltb to 1 ≡ false
  positive = ground (arith, low)

  compact_to-outcome : (checks : Bool) → compact_to engine checks to s ≡ ok outcome
  unfolding compact_to
  compact_to-outcome checks = rw (asserted checks, positive, term_of_dropped) refl

  end_left : s.last_index + 1 ≡ to + length (drop (to - s.first_index) log)
  end_left = omega (arith, length-drop (to - s.first_index) log, view.1, low, high)

  truncated_left : to - 1 + 1 ≡ to
  truncated_left = omega (arith, low)

  outcome-StandsFor : StandsFor (outcome.0) (drop (to - s.first_index) log) j
  unfolding compaction
  outcome-StandsFor = elim (Bool-cases (ltb s.hard_state.commit to)) [
    | inl late ↦ rw late (log_left, end_left, truncated_left, view.3, view.4, same_left)
    | inr in_time ↦ rw in_time (log_left, end_left, truncated_left, view.3, view.4, same_left)
  ]

  last_put-outcome : last_put local_state_key (outcome.1) ≡ (
      if ltb s.hard_state.commit to
      then some (hard (record (s.hard_state) { commit = to }))
      else some (local (outcome.0.local_state)))
  unfolding compaction
  last_put-outcome = ground (arith)

  -- Compacting up to an index in the log, or just behind it, succeeds and leaves the entries from
  -- there on. Where the commit index is below, the last message that the batch puts under the key of
  -- the truncated state is the hard state, its commit index raised to that index; else it is the
  -- truncated state.
  pub compact_to_lem :
      (checks : Bool)
      → (s' : Storage) × (batch : List LogCommand) × (compact_to engine checks to s
          ≡ ok (s', batch))
        × StandsFor s' (drop (to - s.first_index) log) j
        × (last_put local_state_key batch ≡ (
            if ltb s.hard_state.commit to
            then some (hard (record (s.hard_state) { commit = to }))
            else some (local s'.local_state)))
  compact_to_lem checks =
      (outcome.0, outcome.1, compact_to-outcome checks, outcome-StandsFor, last_put-outcome)
