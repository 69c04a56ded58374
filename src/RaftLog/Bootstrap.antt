-- ===== src/RaftLog/Bootstrap.antt =====
-- `write_initial_state` of src/server/src/raftgroup/storage.rs: the log that a new replica starts
-- with. How messages are encoded is another crate's.
use mathlib.Core.Path.{subst}
use engula.Prelude.{
  is_nil, arith, length-append, ◌∙◌, Bool, List, Option, [], ap, false, if◌then◌else◌, leb, length,
  map, not, refl, some, suc, true, ℕ, ◌&&◌, ◌++◌, ◌+◌, ◌∷◌, ◌≡◌,
}
use engula.RaftLog.Cache.{LogEntry}
use engula.RaftLog.Cache.Runs.{IsRun-append, IsRun}
use engula.RaftLog.Storage.{
  HardState, LogCommand, add_entries, clean, hard, hard_state_key, local, local_state_key,
  put_message,
}
use mathlib.Core.Path.{subst}
use engula.Meta.{
  Bytes, ChangeReplicaType, ChangeReplicas, EvalResult, ReplicaDesc, ReplicaRole, learner,
}

-- `sort_unstable_by_key(|r| r.id)`
pub insert_by_id : ReplicaDesc → List ReplicaDesc → List ReplicaDesc
insert_by_id r [] = r ∷ []
insert_by_id r (x ∷ xs) =
    let rest = insert_by_id r xs in if leb r.id x.id then r ∷ x ∷ xs else x ∷ rest

sort_by_id : List ReplicaDesc → List ReplicaDesc
sort_by_id [] = []
sort_by_id (r ∷ rs) = insert_by_id r (sort_by_id rs)

pub is_learner : Option ReplicaRole → Bool
is_learner (some learner) = true
is_learner _ = false

add_change : ReplicaDesc → ChangeReplicas
add_change r = record {
  changes =
      record {
        change_type =
            some
              (if is_learner r.role then ChangeReplicaType.add_learner else ChangeReplicaType.add);
        replica_id = r.id;
        node_id = r.node_id;
      }
      ∷ [];
}

-- Entries of term 1 with consecutive indices behind `last`.
entries_behind : ℕ → List Bytes → List LogEntry
entries_behind last [] = []
entries_behind last (b ∷ bs) =
    (record { index = last + 1; term = 1; bytes = b }) ∷ entries_behind (last + 1) bs

-- The first index with the test setting `force_new_peer_receiving_snapshot`.
unfoldable pub initial_index_of : Bool → List ReplicaDesc → List EvalResult → ℕ
initial_index_of force replicas results =
    if force && not (is_nil replicas && is_nil results) then 5 else 0

module _ (encode_change : ChangeReplicas → Bytes) (encode_result : EvalResult → Bytes) where
  initial_entries : ℕ → List ReplicaDesc → List EvalResult → List LogEntry
  unfolding add_change sort_by_id entries_behind
  initial_entries first replicas results =
      let changes =
        entries_behind first (map (λ r. encode_change (add_change r)) (sort_by_id replicas)) in
      changes ++ entries_behind (first + length changes) (map encode_result results)

  initial_hard_state : ℕ → ℕ → List LogEntry → HardState
  initial_hard_state replica_id first [] = record { term = 0; vote = 0; commit = 0 }
  initial_hard_state replica_id first (e ∷ es) = record {
    term = 1;
    vote = replica_id;
    commit = first + length (e ∷ es);
  }

  -- `write_initial_state`: the batch for the engine.
  unfoldable pub initial_batch : Bool → ℕ → List ReplicaDesc → List EvalResult → List LogCommand
  unfolding initial_entries initial_hard_state
  initial_batch force replica_id replicas results =
      let first = initial_index_of force replicas results in
      let entries = initial_entries first replicas results in
      clean
      ∷ add_entries entries
      ∷ put_message hard_state_key (hard (initial_hard_state replica_id first entries))
      ∷ put_message local_state_key (
          local (record {
            replica_id = replica_id;
            last_truncated = some (record { index = first; term = 0 });
          }))
      ∷ []

  entries_behind-IsRun : (last : ℕ) (bs : List Bytes) → IsRun (last + 1) (entries_behind last bs)
  unfolding entries_behind
  entries_behind-IsRun last [] = tt
  entries_behind-IsRun last (b ∷ bs) = (
    refl,
    subst (λ i. IsRun i (entries_behind (last + 1) bs)) (omega arith)
        (entries_behind-IsRun (last + 1) bs),
  )

  length-entries_behind : (last : ℕ) (bs : List Bytes) → length (entries_behind last bs) ≡ length bs
  unfolding entries_behind
  length-entries_behind last [] = refl
  length-entries_behind last (b ∷ bs) = ap suc (length-entries_behind (last + 1) bs)

  length-insert_by_id :
      (r : ReplicaDesc) (rs : List ReplicaDesc) → length (insert_by_id r rs) ≡ suc (length rs)
  unfolding insert_by_id
  length-insert_by_id r [] = refl
  length-insert_by_id r (x ∷ xs) = ground (arith, length-insert_by_id r xs)

  length-sort_by_id : (rs : List ReplicaDesc) → length (sort_by_id rs) ≡ length rs
  unfolding sort_by_id
  length-sort_by_id [] = refl
  length-sort_by_id (r ∷ rs) = length-insert_by_id r (sort_by_id rs) ∙ ap suc (length-sort_by_id rs)

  length-map : {A : Type 0} (f : A → Bytes) (xs : List A) → length (map f xs) ≡ length xs
  length-map f [] = refl
  length-map f (x ∷ xs) = ap suc (length-map f xs)

  initial_entries-IsRun :
      (first : ℕ) (replicas : List ReplicaDesc) (results : List EvalResult)
      → IsRun (first + 1) (initial_entries first replicas results)
  unfolding initial_entries
  initial_entries-IsRun first replicas results =
      let cs = map (λ r. encode_change (add_change r)) (sort_by_id replicas) in
      let n = length (entries_behind first cs) in
      let at : first + n + 1 ≡ first + 1 + n = omega arith in
      IsRun-append (first + 1) (entries_behind first cs)
        (entries_behind (first + n) (map encode_result results)) (entries_behind-IsRun first cs)
        (subst (λ i. IsRun i (entries_behind (first + n) (map encode_result results))) at
          (entries_behind-IsRun (first + n) (map encode_result results)))

  length-initial_entries :
      (first : ℕ) (replicas : List ReplicaDesc) (results : List EvalResult)
      → length (initial_entries first replicas results) ≡ length replicas + length results
  unfolding initial_entries
  length-initial_entries first replicas results =
      let cs = map (λ r. encode_change (add_change r)) (sort_by_id replicas) in
      let n = length (entries_behind first cs) in
      omega (
        arith,
        length-append (entries_behind first cs)
            (entries_behind (first + n) (map encode_result results)),
        length-entries_behind first cs,
        length-entries_behind (first + n) (map encode_result results),
        length-map encode_result results,
        length-map (λ r. encode_change (add_change r)) (sort_by_id replicas),
        length-sort_by_id replicas,
      )

  commit_of :
      (replica_id first : ℕ) (es : List LogEntry)
      → (initial_hard_state replica_id first es).commit
        ≡ (if is_nil es then 0 else first + length es)
  unfolding initial_hard_state
  commit_of replica_id first [] = refl
  commit_of replica_id first (e ∷ es) = refl

  -- A new replica starts with a clean log of consecutive entries behind its first index, one for
  -- each replica and each result, all of them committed, and the first index is the truncated one.
  pub initial_batch_lem :
      (force : Bool) (replica_id : ℕ) (replicas : List ReplicaDesc) (results : List EvalResult)
      → (es : List LogEntry) × (hs : HardState) × (initial_batch force replica_id replicas results
          ≡ clean
            ∷ add_entries es
            ∷ put_message hard_state_key (hard hs)
            ∷ put_message local_state_key (
                local (record {
                  replica_id = replica_id;
                  last_truncated =
                      some (record { index = initial_index_of force replicas results; term = 0 });
                }))
            ∷ [])
        × IsRun (initial_index_of force replicas results + 1) es
        × (length es ≡ length replicas + length results)
        × (hs.commit
            ≡ (if is_nil es then 0 else initial_index_of force replicas results + length es))
  unfolding initial_batch
  initial_batch_lem force replica_id replicas results =
      let first = initial_index_of force replicas results in
      let es = initial_entries first replicas results in
      (
        es,
        initial_hard_state replica_id first es,
        refl,
        initial_entries-IsRun first replicas results,
        length-initial_entries first replicas results,
        commit_of replica_id first es,
      )

-- `destory`
abbrev pub destory : List LogCommand
destory = clean ∷ []
