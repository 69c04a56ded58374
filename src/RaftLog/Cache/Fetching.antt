-- ===== src/RaftLog/Cache/Fetching.antt =====
-- `EntryCache::fetch_entries_to` of src/server/src/raftgroup/storage.rs.
use engula.RaftLog.Cache.{fetch_range, EntryCache, fetch_entries_to, LogEntry, take_sized}
use engula.RaftLog.Cache.Runs.{
  get_elem?-IsRun, IsRun-take, IsRun, IsRun-drop, entry_at, entry_at-drop, entry_at-take,
}
use mathlib.Core.Path.{subst}
use engula.RaftLog.Cache.Draining.{ReachesIndex}
use engula.RaftLog.Cache.Scanning.{Scanned, Stops, take_sized-Scanned, total_len}
use engula.Prelude.{
  sym, ok, ◌++◌, drop, if◌then◌else◌, length-drop, length-take, ltb, min, none, ◌-◌, List, [],
  arith, get_elem?, inl, inr, leb, length, some, take, ℕ, ◌+◌, ◌<◌, ◌∷◌, ◌≡◌, ◌≤◌, ◌⊎◌,
}

-- The entries from `begin` on, `limit` of them at most.
window : ℕ → ℕ → ℕ → List LogEntry → List LogEntry
window i begin limit es = take limit (drop (begin - i) es)

IsRun-drop_to :
    (i begin : ℕ) (es : List LogEntry)
    → IsRun i es
    → i ≤ begin
    → begin ≤ i + length es
    → IsRun begin (drop (begin - i) es)
IsRun-drop_to i begin es r low high =
    subst (λ x. IsRun x (drop (begin - i) es)) (omega (arith, low))
      (IsRun-drop (begin - i) i es (omega (arith, high)) r)

entry_at-window :
    (i begin limit k : ℕ) (es : List LogEntry)
    → IsRun i es
    → i ≤ begin
    → begin ≤ i + length es
    → entry_at k (window i begin limit es)
      ≡ (if leb begin k then if ltb k (begin + limit) then entry_at k es else none else none)
unfolding window
entry_at-window i begin limit k es r low high = ground (
  arith,
  entry_at-take limit begin k (drop (begin - i) es) (IsRun-drop_to i begin es r low high),
  entry_at-drop (begin - i) i k es r,
  low,
)

length-window :
    (i begin limit : ℕ) (es : List LogEntry)
    → length (window i begin limit es) ≡ min limit (length es - (begin - i))
unfolding window
length-window i begin limit es =
    omega (arith, length-take limit (drop (begin - i) es), length-drop (begin - i) es)

-- What a fetch hands out: consecutive entries of the cache from `begin` on, before `end`, whose
-- sizes fit `max_size`. It stops at `end`, at the last cached entry (`next` is the index behind it),
-- or at an entry that does not fit, whose size is counted too.
pub Fetched : (LogEntry → ℕ) → ℕ → ℕ → ℕ → ℕ → List LogEntry → ℕ → List LogEntry → Type 0
Fetched encoded_len begin end max_size next es size got =
    IsRun begin got
    × (begin + length got ≤ end)
    × (total_len encoded_len got ≤ max_size)
    × ((k : ℕ)
        → entry_at k got ≡ (
            if leb begin k
            then if ltb k (begin + length got) then entry_at k es else none
            else none))
    × (((begin + length got ≡ min end next) × (size ≡ total_len encoded_len got))
        ⊎ ((e : LogEntry) × (entry_at (begin + length got) es ≡ some e)
            × (size ≡ total_len encoded_len got + encoded_len e)
            × (max_size < size)))

module _ (encoded_len : LogEntry → ℕ) (begin end max_size i : ℕ) (es : List LogEntry)
    (run : IsRun i es) (low : i ≤ begin) (high : begin ≤ i + length es) (before_end : begin < end)
    (n : ℕ) (short : n ≤ length (window i begin (end - begin) es)) where
  abbrev prefix : List LogEntry
  prefix = take n (window i begin (end - begin) es)

  length-prefix : length prefix ≡ n
  length-prefix = omega (arith, length-take n (window i begin (end - begin) es), short)

  IsRun-window : IsRun begin (window i begin (end - begin) es)
  unfolding window
  IsRun-window =
      IsRun-take (end - begin) begin (drop (begin - i) es) (IsRun-drop_to i begin es run low high)

  entry_at-prefix :
      (k : ℕ)
      → entry_at k prefix ≡ (
          if leb begin k
          then if ltb k (begin + length prefix) then entry_at k es else none
          else none)
  entry_at-prefix k = rw length-prefix (
      ground (
        arith,
        entry_at-take n begin k (window i begin (end - begin) es) IsRun-window,
        entry_at-window i begin (end - begin) k es run low high,
        before_end,
        short,
        length-window i begin (end - begin) es,
      ))

  entry_behind :
      (e : LogEntry)
      → get_elem? (window i begin (end - begin) es) n ≡ some e
      → entry_at (begin + length prefix) es ≡ some e
  entry_behind e at = rw length-prefix (
      ground (
        arith,
        at,
        get_elem?-IsRun begin n (window i begin (end - begin) es) IsRun-window,
        entry_at-window i begin (end - begin) (begin + n) es run low high,
      ))

  scan_end :
      (size : ℕ)
      → Stops encoded_len max_size 0 (window i begin (end - begin) es) size n
      → ((begin + length prefix ≡ min end (i + length es)) × (size ≡ total_len encoded_len prefix))
        ⊎ ((e : LogEntry) × (entry_at (begin + length prefix) es ≡ some e)
            × (size ≡ total_len encoded_len prefix + encoded_len e)
            × (max_size < size))
  scan_end size (inl (all, sum)) = inl (
    omega
        (arith, length-prefix, all, length-window i begin (end - begin) es, low, high, before_end),
    omega (arith, sum),
  )
  scan_end size (inr (e, at, sum, over)) = inr (e, entry_behind e at, omega (arith, sum), over)

  window-Fetched :
      (size : ℕ)
      → total_len encoded_len prefix ≤ max_size
      → Stops encoded_len max_size 0 (window i begin (end - begin) es) size n
      → Fetched encoded_len begin end max_size (i + length es) es size prefix
  unfolding Fetched
  window-Fetched size small stop = (
    IsRun-take n begin (window i begin (end - begin) es) IsRun-window,
    omega (arith, length-prefix, short, length-window i begin (end - begin) es, before_end),
    small,
    entry_at-prefix,
    scan_end size stop,
  )

Fetched-Scanned :
    (encoded_len : LogEntry → ℕ) (begin end max_size i : ℕ) (es : List LogEntry)
    → IsRun i es
    → i ≤ begin
    → begin ≤ i + length es
    → begin < end
    → (r : ℕ × List LogEntry) → Scanned encoded_len max_size 0 (window i begin (end - begin) es) r
    → Fetched encoded_len begin end max_size (i + length es) es r.0 r.1
Fetched-Scanned len begin end most i es run low high before_end r (n, same, short, small, stop) =
    subst (λ x. Fetched len begin end most (i + length es) es r.0 x) (sym same)
      (window-Fetched len begin end most i es run low high before_end n short r.0
        (omega (arith, small)) stop)

fetched : (LogEntry → ℕ) → ℕ → ℕ → ℕ → ℕ → List LogEntry → ℕ × List LogEntry
fetched encoded_len begin end max_size i es =
    take_sized encoded_len max_size 0 (window i begin (end - begin) es)

fetch_entries_to-fetched :
    (encoded_len : LogEntry → ℕ) (begin end max_size i : ℕ) (es out : List LogEntry)
    → begin < end
    → IsRun i es
    → i ≤ begin
    → begin < i + length es
    → fetch_entries_to encoded_len begin end max_size (record { entries = es }) out
      ≡ ok (
        (fetched encoded_len begin end max_size i es).0,
        out ++ (fetched encoded_len begin end max_size i es).1,
      )
unfolding fetched window fetch_entries_to fetch_range
fetch_entries_to-fetched encoded_len begin end max_size i [] out h run low high =
    absurd (omega (arith, low, high))
fetch_entries_to-fetched encoded_len begin end max_size i (e ∷ es) out h run low high =
    rw (run.0) (ground (arith, h, low, high))

-- A fetch from an index that the cache reaches succeeds and hands out, behind what `out` has, the
-- longest consecutive entries from there on that stay before `end`, in the cache and in `max_size`.
pub fetch_entries_to_lem :
    (encoded_len : LogEntry → ℕ) (begin end max_size : ℕ) (c : EntryCache) (out : List LogEntry)
    → begin < end
    → (h : ReachesIndex begin c)
    → (size : ℕ) × (got : List LogEntry) × (fetch_entries_to encoded_len begin end max_size c out
        ≡ ok (size, out ++ got))
      × Fetched encoded_len begin end max_size (h.0 + length c.entries) c.entries size got
unfolding fetched
fetch_entries_to_lem encoded_len begin end max_size c out before_end (i, run, low, high) =
    let r = fetched encoded_len begin end max_size i c.entries in
    (
      r.0,
      r.1,
      fetch_entries_to-fetched encoded_len begin end max_size i c.entries out before_end run low
          high,
      Fetched-Scanned encoded_len begin end max_size i c.entries run low (omega (arith, high))
          before_end r
          (take_sized-Scanned encoded_len max_size 0 (window i begin (end - begin) c.entries)
            (omega arith)),
    )
