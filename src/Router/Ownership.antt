-- ===== src/Router/Ownership.antt =====
-- What a client of src/client/src/router.rs is told of a shard after the events of the root server.
use engula.HashMap
use engula.Prelude.{Bool, List, Option, any, false, none, some, true, ℕ, ◌&&◌, ◌==◌, ◌≡◌, ◌≤◌}
use engula.Router.Owners.{has_shard}
use engula.Meta.{UpdateEvent, update_group}
use engula.HashMap.{nat_key}

-- A descriptor of the group and epoch that lists the shard.
pub lists : ℕ → ℕ × ℕ → UpdateEvent → Bool
lists shard at (update_group d) = has_shard shard d.shards && ((d.id == at.0) && (d.epoch == at.1))
lists shard at _ = false

abbrev pub lists_any : ℕ → ℕ × ℕ → List UpdateEvent → Bool
unfolding lists
lists_any shard at events = any (λ e. lists shard at e) events

-- No descriptor that lists the shard is newer than an epoch.
pub IsNoNewer : ℕ → ℕ → UpdateEvent → Type 0
IsNoNewer shard epoch (update_group d) = has_shard shard d.shards ≡ true → d.epoch ≤ epoch
IsNoNewer shard epoch _ = Unit

-- What the entry of a shard becomes.
BehindEntry : ℕ → Option (ℕ × ℕ) → Type 0
BehindEntry epoch none = Unit
BehindEntry epoch (some at) = at.1 ≤ epoch
