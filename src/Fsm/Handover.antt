-- ===== src/Fsm/Handover.antt =====
-- A shard that migrates, at its two groups (`apply_migration` of
-- src/server/src/node/replica/fsm/mod.rs).
use engula.Meta.{ShardDesc}
use engula.Prelude.{Bool, List, any, ℕ, ◌==◌}

-- Whether a group has a shard.
abbrev pub has_shard : ℕ → List ShardDesc → Bool
has_shard id shards = any (λ s. s.id == id) shards
