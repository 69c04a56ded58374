-- ===== src/RaftLog/Cache/Scanning.antt =====
-- The scan for the entries that fit, in `EntryCache::fetch_entries_to` of
-- src/server/src/raftgroup/storage.rs.
use engula.RaftLog.Cache.{LogEntry, take_sized}
use engula.Prelude.{
  ap, false, true, Bool-cases, List, [], arith, get_elem?, inl, inr, leb, length, refl, some, suc,
  take, ℕ, ◌+◌, ◌<◌, ◌∷◌, ◌≡◌, ◌≤◌, ◌⊎◌,
}

module _ (encoded_len : LogEntry → ℕ) where
  abbrev pub total_len : List LogEntry → ℕ
  total_len [] = 0
  total_len (e ∷ es) = encoded_len e + total_len es

  -- The scan stops after `n` entries: at the end of the list, or since the next one is too much.
  abbrev pub Stops : ℕ → ℕ → List LogEntry → ℕ → ℕ → Type 0
  Stops max_size fetched es size n =
      ((n ≡ length es) × (size ≡ fetched + total_len (take n es)))
      ⊎ ((e : LogEntry) × (get_elem? es n ≡ some e)
          × (size ≡ fetched + total_len (take n es) + encoded_len e)
          × (max_size < size))

  abbrev pub Scanned : ℕ → ℕ → List LogEntry → ℕ × List LogEntry → Type 0
  Scanned max_size fetched es r =
      (n : ℕ) × (r.1 ≡ take n es)
      × (n ≤ length es)
      × (fetched + total_len (take n es) ≤ max_size)
      × Stops max_size fetched es r.0 n

  Stops-cons :
      (max_size fetched : ℕ) (e : LogEntry) (es : List LogEntry) (size n : ℕ)
      → Stops max_size (fetched + encoded_len e) es size n
      → Stops max_size fetched (e ∷ es) size (suc n)
  Stops-cons max_size fetched e es size n (inl (all, sum)) =
      inl (omega (arith, all), omega (arith, sum))
  Stops-cons max_size fetched e es size n (inr (f, at, sum, over)) =
      inr (f, at, omega (arith, sum), over)

  module _ (max_size fetched : ℕ) (e : LogEntry) (es : List LogEntry) where
    take_sized-fits :
        leb (fetched + encoded_len e) max_size ≡ true
        → take_sized encoded_len max_size fetched (e ∷ es) ≡ (
          (take_sized encoded_len max_size (fetched + encoded_len e) es).0,
          e ∷ (take_sized encoded_len max_size (fetched + encoded_len e) es).1,
        )
    unfolding take_sized
    take_sized-fits h = rw h refl

    take_sized-over :
        leb (fetched + encoded_len e) max_size ≡ false
        → take_sized encoded_len max_size fetched (e ∷ es) ≡ (fetched + encoded_len e, [])
    unfolding take_sized
    take_sized-over h = rw h refl

    Scanned-cons :
        (r : ℕ × List LogEntry)
        → Scanned max_size (fetched + encoded_len e) es r
        → Scanned max_size fetched (e ∷ es) (r.0, e ∷ r.1)
    Scanned-cons r (n, same, short, small, stop) = (
      suc n,
      ap (λ x. e ∷ x) same,
      omega (arith, short),
      omega (arith, small),
      Stops-cons max_size fetched e es r.0 n stop,
    )

    Scanned-over :
        fetched ≤ max_size
        → leb (fetched + encoded_len e) max_size ≡ false
        → Scanned max_size fetched (e ∷ es) (fetched + encoded_len e, [])
    Scanned-over h over =
        (0, refl, omega arith, omega (arith, h), inr (e, refl, omega arith, ground (arith, over)))

  pub take_sized-Scanned :
      (max_size fetched : ℕ) (es : List LogEntry)
      → fetched ≤ max_size
      → Scanned max_size fetched es (take_sized encoded_len max_size fetched es)
  unfolding take_sized
  take_sized-Scanned max_size fetched [] h =
      (0, refl, omega arith, omega (arith, h), inl (omega arith, omega arith))
  take_sized-Scanned max_size fetched (e ∷ es) h =
      elim (Bool-cases (leb (fetched + encoded_len e) max_size)) [
        | inl fits ↦ rw (take_sized-fits max_size fetched e es fits) (
            Scanned-cons max_size fetched e es
              (take_sized encoded_len max_size (fetched + encoded_len e) es)
              (take_sized-Scanned max_size (fetched + encoded_len e) es (ground (arith, fits))))
        | inr over ↦
            rw (take_sized-over max_size fetched e es over)
              (Scanned-over max_size fetched e es h over)
      ]
