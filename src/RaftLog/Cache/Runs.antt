-- ===== src/RaftLog/Cache/Runs.antt =====
-- The cache of src/server/src/raftgroup/storage.rs over entries of consecutive indices.
use engula.RaftLog.Cache.{LogEntry, back_index}
use mathlib.Core.Path.{subst}
use engula.Prelude.{
  Bool-cases, List, Option, [], arith, drop, get_elem?, if◌then◌else◌, inl, inr, length, ltb, none,
  or_else, refl, some, suc, take, zero, ℕ, ◌++◌, ◌+◌, ◌<◌, ◌==◌, ◌∷◌, ◌≡◌, ◌≤◌,
}

-- The entries have the indices from `i` on, one after the other.
abbrev pub IsRun : ℕ → List LogEntry → Type 0
IsRun i [] = Unit
IsRun i (e ∷ es) = (e.index ≡ i) × IsRun (suc i) es

-- The entry of an index, by a search.
abbrev pub entry_at : ℕ → List LogEntry → Option LogEntry
entry_at k [] = none
entry_at k (e ∷ es) = if e.index == k then some e else entry_at k es

pub back_index-IsRun :
    (i : ℕ) (e : LogEntry) (es : List LogEntry)
    → IsRun i (e ∷ es)
    → back_index (e ∷ es) ≡ some (i + length es)
back_index-IsRun i e [] r = ground (arith, r.0)
back_index-IsRun i e (f ∷ es) r = ground (arith, back_index-IsRun (suc i) f es r.1)

pub get_elem?-IsRun :
    (i n : ℕ) (es : List LogEntry) → IsRun i es → get_elem? es n ≡ entry_at (i + n) es
get_elem?-IsRun i n [] r = refl
get_elem?-IsRun i zero (e ∷ es) r = ground (arith, r.0)
get_elem?-IsRun i (suc n) (e ∷ es) r = ground (arith, r.0, get_elem?-IsRun (suc i) n es r.1)

pub entry_at-below : (i k : ℕ) (es : List LogEntry) → IsRun i es → k < i → entry_at k es ≡ none
entry_at-below i k [] r h = refl
entry_at-below i k (e ∷ es) r h = ground (arith, r.0, entry_at-below (suc i) k es r.1)

pub entry_at-above :
    (i k : ℕ) (es : List LogEntry) → IsRun i es → i + length es ≤ k → entry_at k es ≡ none
entry_at-above i k [] r h = refl
entry_at-above i k (e ∷ es) r h = ground (arith, r.0, entry_at-above (suc i) k es r.1)

pub entry_at-inside :
    (i k : ℕ) (es : List LogEntry)
    → IsRun i es
    → i ≤ k
    → k < i + length es
    → (e : LogEntry) × (entry_at k es ≡ some e) × (e.index ≡ k)
entry_at-inside i k [] r h l = absurd (omega arith)
entry_at-inside i k (e ∷ es) r h l = elim (Bool-cases (i == k)) [
  | inl at ↦ (e, ground (arith, r.0), ground (arith, r.0))
  | inr off ↦
      let rest = entry_at-inside (suc i) k es r.1 (ground arith) (ground arith) in
      (rest.0, ground (arith, r.0, rest.1), rest.2)
]

pub IsRun-take : (n i : ℕ) (es : List LogEntry) → IsRun i es → IsRun i (take n es)
IsRun-take zero i es r = tt
IsRun-take (suc n) i [] r = tt
IsRun-take (suc n) i (e ∷ es) r = (r.0, IsRun-take n (suc i) es r.1)

pub IsRun-drop :
    (n i : ℕ) (es : List LogEntry) → n ≤ length es → IsRun i es → IsRun (i + n) (drop n es)
IsRun-drop zero i es h r = subst (λ x. IsRun x es) (omega arith) r
IsRun-drop (suc n) i [] h r = absurd (omega arith)
IsRun-drop (suc n) i (e ∷ es) h r =
    subst (λ x. IsRun x (drop n es)) (omega arith) (IsRun-drop n (suc i) es (omega arith) r.1)

pub IsRun-append :
    (i : ℕ) (es fs : List LogEntry) → IsRun i es → IsRun (i + length es) fs → IsRun i (es ++ fs)
IsRun-append i [] fs r s = subst (λ x. IsRun x fs) (omega arith) s
IsRun-append i (e ∷ es) fs r s =
    (r.0, IsRun-append (suc i) es fs r.1 (subst (λ x. IsRun x fs) (omega arith) s))

pub entry_at-append :
    (k : ℕ) (es fs : List LogEntry)
    → entry_at k (es ++ fs) ≡ or_else (entry_at k es) (entry_at k fs)
entry_at-append k [] fs = refl
entry_at-append k (e ∷ es) fs = ground (arith, entry_at-append k es fs)

pub entry_at-take :
    (n i k : ℕ) (es : List LogEntry)
    → IsRun i es
    → entry_at k (take n es) ≡ (if ltb k (i + n) then entry_at k es else none)
entry_at-take zero i k es r = ground (arith, entry_at-below i k es r)
entry_at-take (suc n) i k [] r = ground arith
entry_at-take (suc n) i k (e ∷ es) r = ground (arith, r.0, entry_at-take n (suc i) k es r.1)

pub entry_at-drop :
    (n i k : ℕ) (es : List LogEntry)
    → IsRun i es
    → entry_at k (drop n es) ≡ (if ltb k (i + n) then none else entry_at k es)
entry_at-drop zero i k es r = ground (arith, entry_at-below i k es r)
entry_at-drop (suc n) i k [] r = ground arith
entry_at-drop (suc n) i k (e ∷ es) r = ground (arith, r.0, entry_at-drop n (suc i) k es r.1)
