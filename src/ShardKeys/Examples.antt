-- ===== src/ShardKeys/Examples.antt =====
-- The ranges of shards on concrete keys.
use engula.ShardKeys.{in_range}
use engula.ShardKeys.Ranges.{in_range-cut}
use engula.Prelude.{[], false, refl, ◌&&◌, ◌||◌, ◌∷◌, ◌≡◌}

in_range-cut_example :
    (in_range (97 ∷ []) [] (110 ∷ 1 ∷ [])
      ≡ (in_range (97 ∷ []) (109 ∷ []) (110 ∷ 1 ∷ []) || in_range (109 ∷ []) [] (110 ∷ 1 ∷ [])))
    × ((in_range (97 ∷ []) (109 ∷ []) (110 ∷ 1 ∷ []) && in_range (109 ∷ []) [] (110 ∷ 1 ∷ []))
        ≡ false)
in_range-cut_example = in_range-cut (97 ∷ []) (109 ∷ []) [] (110 ∷ 1 ∷ []) refl refl
