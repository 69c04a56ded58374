-- ===== src/RaftLog/Cache/Appending.antt =====
-- `EntryCache::append` of src/server/src/raftgroup/storage.rs.

use engula.RaftLog.Cache.{append, EntryCache, LogEntry, back_index, drain_from, keep_before}
use engula.RaftLog.Cache.Runs.{
  entry_at-below, IsRun-append, IsRun-take, entry_at, entry_at-append, IsRun, back_index-IsRun,
}
use engula.Error.{Result}
use mathlib.Core.Path.{subst}
use engula.Prelude.{
  min, length-take, or_else, Panic, true, ◌>>=◌, inl, inr, lt_or_le, sym, ◌++◌, Bool, List, Option,
  [], ap, arith, entry_hole, false, if◌then◌else◌, length, ltb, none, ok, panic, refl, retain, some,
  suc, take, zero, ℕ, ◌+◌, ◌-◌, ◌∷◌, ◌≡◌, ◌≤◌,
}

abbrev pub IsContiguous : EntryCache → Type 0
IsContiguous c = (i : ℕ) × IsRun i c.entries

-- New entries from `first` on do not connect to the last cached index.
abbrev pub leaves_gap : ℕ → Option ℕ → Bool
leaves_gap first none = false
leaves_gap first (some last) = ltb (last + 1) first

-- The entries with an index below `first`.
abbrev pub entries_below : ℕ → List LogEntry → List LogEntry
entries_below first = retain (λ e. ltb e.index first)

take-all : (n : ℕ) (es : List LogEntry) → length es ≤ n → take n es ≡ es
take-all zero [] h = refl
take-all zero (e ∷ es) h = absurd (omega (arith, h))
take-all (suc n) [] h = refl
take-all (suc n) (e ∷ es) h = ap (λ x. e ∷ x) (take-all n es (omega (arith, h)))

take-nothing : (n : ℕ) (es : List LogEntry) → n ≡ 0 → take n es ≡ []
take-nothing zero es h = refl
take-nothing (suc n) es h = absurd (omega (arith, h))

take-cons :
    (n m : ℕ) (e : LogEntry) (es : List LogEntry) → n ≡ suc m → take n (e ∷ es) ≡ e ∷ take m es
take-cons zero m e es h = absurd (omega (arith, h))
take-cons (suc n) m e es h = ap (λ x. e ∷ take x es) (omega (arith, h))

entries_below-take :
    (first i : ℕ) (es : List LogEntry) → IsRun i es → entries_below first es ≡ take (first - i) es
entries_below-take first i [] r = sym (take-all (first - i) [] (omega arith))
entries_below-take first i (e ∷ es) r = elim (lt_or_le i first) [
  | inl below ↦ ground (
    arith,
    r.0,
    below,
    entries_below-take first (suc i) es r.1,
    take-cons (first - i) (first - suc i) e es (omega (arith, below)),
  )
  | inr above ↦ ground (
    arith,
    r.0,
    above,
    entries_below-take first (suc i) es r.1,
    take-nothing (first - suc i) es (omega (arith, above)),
    take-nothing (first - i) (e ∷ es) (omega (arith, above)),
  )
]

keep_before-take :
    (first i : ℕ) (e : LogEntry) (es : List LogEntry)
    → IsRun i (e ∷ es)
    → keep_before first (back_index (e ∷ es)) (e ∷ es) ≡ (
        if leaves_gap first (back_index (e ∷ es))
        then panic entry_hole
        else ok (take (first - i) (e ∷ es)))
unfolding keep_before drain_from
keep_before-take first i e es r =
    ground (arith, back_index-IsRun i e es r, take-all (first - i) (e ∷ es))

keep_before-entries_below :
    (first i : ℕ) (es : List LogEntry)
    → IsRun i es
    → keep_before first (back_index es) es
      ≡ (if leaves_gap first (back_index es) then panic entry_hole else ok (entries_below first es))
unfolding keep_before
keep_before-entries_below first i [] r = refl
keep_before-entries_below first i (e ∷ es) r =
    rw (keep_before-take first i e es r, entries_below-take first i (e ∷ es) r)

then_ok :
    {A B : Type 0} (b : Bool) (p : Panic) (a : A) (f : A → B)
    → ◌≡◌ {A = Result B}
        ((if b then panic p else ok a) >>= λ x. ok (f x))
        (if b then panic p else ok (f a))
then_ok true p a f = refl
then_ok false p a f = refl

-- Appending to a cache of consecutive entries panics where the new entries leave a gap, and else
-- replaces all cached entries from the first new index on by the new ones.
pub append-entries_below :
    (c : EntryCache) (f : LogEntry) (fs : List LogEntry)
    → IsContiguous c
    → append (f ∷ fs) c ≡ (
        if leaves_gap f.index (back_index c.entries)
        then panic entry_hole
        else ok (record { entries = entries_below f.index c.entries ++ f ∷ fs }))
unfolding append
append-entries_below c f fs h = rw (keep_before-entries_below f.index h.0 c.entries h.1) (
    then_ok (leaves_gap f.index (back_index c.entries)) entry_hole (entries_below f.index c.entries)
      (λ kept. record { entries = kept ++ f ∷ fs }))

entry_at-entries_below :
    (first k : ℕ) (es : List LogEntry)
    → entry_at k (entries_below first es) ≡ (if ltb k first then entry_at k es else none)
entry_at-entries_below first k [] = ground arith
entry_at-entries_below first k (e ∷ es) = ground (arith, entry_at-entries_below first k es)

within_reach :
    (first i : ℕ) (e : LogEntry) (es : List LogEntry)
    → IsRun i (e ∷ es)
    → leaves_gap first (back_index (e ∷ es)) ≡ false
    → first ≤ i + length (e ∷ es)
within_reach first i e es r h = ground (arith, back_index-IsRun i e es r, h)

or_else-none : {A : Type 0} (o : Option A) → or_else o none ≡ o
or_else-none none = refl
or_else-none (some a) = refl

pub entry_at-replaced :
    (k first : ℕ) (es fs : List LogEntry)
    → IsRun first fs
    → entry_at k (entries_below first es ++ fs)
      ≡ (if ltb k first then entry_at k es else entry_at k fs)
entry_at-replaced k first es fs r = elim (lt_or_le k first) [
  | inl low ↦ ground (
    arith,
    entry_at-append k (entries_below first es) fs,
    entry_at-entries_below first k es,
    entry_at-below first k fs r low,
    or_else-none (entry_at k es),
    low,
  )
  | inr high ↦ ground (
    arith,
    entry_at-append k (entries_below first es) fs,
    entry_at-entries_below first k es,
    high,
  )
]

-- Behind the entries below `first`, entries from `first` on are consecutive.
pub joined :
    (first i : ℕ) (es fs : List LogEntry)
    → IsRun i es
    → IsRun first fs
    → first ≤ i + length es
    → IsRun (min i first) (entries_below first es ++ fs)
joined first i es fs r s h = elim (lt_or_le first i) [
  | inl below ↦
      rw (entries_below-take first i es r, take-nothing (first - i) es (omega (arith, below)))
        (subst (λ x. IsRun x fs) (omega (arith, below)) s)
  | inr above ↦
      let least : i ≡ min i first = omega (arith, above) in
      subst (λ x. IsRun x (entries_below first es ++ fs)) least
        (rw (entries_below-take first i es r) (
          IsRun-append i (take (first - i) es) fs (IsRun-take (first - i) i es r)
            (subst (λ x. IsRun x fs) (omega (arith, length-take (first - i) es, above, h)) s)))
]

pub length-entries_below :
    (first i : ℕ) (es : List LogEntry)
    → IsRun i es
    → length (entries_below first es) ≡ min (first - i) (length es)
length-entries_below first i es r =
    rw (entries_below-take first i es r) (length-take (first - i) es)

connected :
    (first i : ℕ) (es fs : List LogEntry)
    → IsRun i es
    → IsRun first fs
    → leaves_gap first (back_index es) ≡ false
    → IsContiguous (record { entries = entries_below first es ++ fs })
connected first i [] fs r s h = (first, s)
connected first i (e ∷ es) fs r s h =
    (min i first, joined first i (e ∷ es) fs r s (within_reach first i e es r h))

-- New entries that leave no gap are accepted, the cache stays consecutive, and an index has its new
-- entry from the first new index on and the entry it had before below it.
pub append_lem :
    (c : EntryCache) (f : LogEntry) (fs : List LogEntry)
    → IsContiguous c
    → IsRun f.index (f ∷ fs)
    → leaves_gap f.index (back_index c.entries) ≡ false
    → (c' : EntryCache) × (append (f ∷ fs) c ≡ ok c')
      × IsContiguous c'
      × ((k : ℕ)
          → entry_at k c'.entries
            ≡ (if ltb k f.index then entry_at k c.entries else entry_at k (f ∷ fs)))
append_lem c f fs h run fits = (
  record { entries = entries_below f.index c.entries ++ f ∷ fs },
  rw (append-entries_below c f fs h, fits) refl,
  connected f.index h.0 c.entries (f ∷ fs) h.1 run fits,
  λ k. entry_at-replaced k f.index c.entries (f ∷ fs) run,
)
